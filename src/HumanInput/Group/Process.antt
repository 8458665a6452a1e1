-- ===== src/HumanInput/Group/Process.antt =====
-- `hid_process_changes_of_local_state` makes the global state the union of the devices' states.
use blesk_os.Common.{
  ℕ, zero, suc, ◌+◌, ◌<◌, ◌≡◌, refl, sym, ap, ◌∙◌, List, ◌==◌, ltb, get_or, set, length, as_int,
  arith, length-set, get_or-set, if◌then◌else◌, if-ltb_zero,
}
use blesk_os.HumanInput.Keys.{input_key_count}
use blesk_os.HumanInput.State.{DeviceState, GlobalState, input_buttons_count}
use blesk_os.HumanInput.Group.{
  Hid, change_key, key_step, key_loop, movement_step, button_step, button_loop,
  process_changes_of_local_state, actual_keys, actual_buttons, forget_released, remember_pressed,
}
use blesk_os.HumanInput.Group.Merge.{any_on, IsDeviceState, actual_keys-any}

-- The arrays of the global state have their length.
pub record IsGlobal (w : Hid) : Type 0 where
  pub keys : length w.global.key_state ≡ input_key_count
  pub buttons : length w.global.button_state ≡ input_buttons_count
  pub devices : (d : ℕ) → IsDeviceState (w.state_of d)

key_state-remember :
    (i v u : ℕ) (g : GlobalState) → (remember_pressed i v u g).key_state ≡ g.key_state
unfolding remember_pressed
key_state-remember i v u g = ground arith

key_state-forget : (i v : ℕ) (g : GlobalState) → (forget_released i v g).key_state ≡ g.key_state
unfolding forget_released
key_state-forget i v g = ground arith

key_state-change_key :
    (i v : ℕ) (w : Hid) → (change_key i v w).global.key_state ≡ set w.global.key_state i v
unfolding change_key
key_state-change_key i v w = key_state-remember i v _ _ ∙ key_state-forget i v _

length-key_step :
    (actual : List ℕ) (i : ℕ) (w : Hid)
    → length (key_step actual i w).global.key_state ≡ length w.global.key_state
unfolding key_step
length-key_step actual i w = ground (
  arith,
  key_state-change_key i (get_or actual i 0) w,
  length-set w.global.key_state i (get_or actual i 0),
)

get_or-key_step :
    (actual : List ℕ) (i : ℕ) (w : Hid) (j : ℕ)
    → i < length w.global.key_state
    → get_or (key_step actual i w).global.key_state j 0
      ≡ (if j == i then get_or actual j 0 else get_or w.global.key_state j 0)
unfolding key_step
get_or-key_step actual i w j h = ground (
  arith,
  key_state-change_key i (get_or actual i 0) w,
  get_or-set w.global.key_state i (get_or actual i 0) j h,
)

-- From key `i` on the loop copies the merged array, and it leaves the keys before as they are.
get_or-key_loop :
    (actual : List ℕ) (n i : ℕ) (w : Hid) (j : ℕ)
    → i + n ≡ length w.global.key_state
    → j < i + n
    → get_or (key_loop actual n i w).global.key_state j 0
      ≡ (if ltb j i then get_or w.global.key_state j 0 else get_or actual j 0)
unfolding key_loop
get_or-key_loop actual zero i w j l h = ground arith
get_or-key_loop actual (suc n) i w j l h = ground (
  arith,
  length-key_step actual i w,
  get_or-key_step actual i w j,
  get_or-key_loop actual n (i + 1) (key_step actual i w) j,
)

-- The parts behind the key loop leave the keys alone.
key_state-movement_step :
    (s : DeviceState) (w : Hid) → (movement_step s w).global.key_state ≡ w.global.key_state
unfolding movement_step
key_state-movement_step s w = ground arith

key_state-button_step :
    (actual : List ℕ) (i : ℕ) (w : Hid)
    → (button_step actual i w).global.key_state ≡ w.global.key_state
unfolding button_step
key_state-button_step actual i w = ground arith

key_state-button_loop :
    (actual : List ℕ) (n i : ℕ) (w : Hid)
    → (button_loop actual n i w).global.key_state ≡ w.global.key_state
unfolding button_loop
key_state-button_loop actual zero i w = refl
key_state-button_loop actual (suc n) i w =
    key_state-button_loop actual n (i + 1) (button_step actual i w)
    ∙ key_state-button_step actual i w

-- After any change of a device, on states whose arrays are well formed, each key is pressed
-- globally exactly when some device of the group has it pressed.
pub process-keys :
    (d : ℕ) (w : Hid) (j : ℕ)
    → IsGlobal w
    → j < input_key_count
    → get_or (process_changes_of_local_state d w).global.key_state j 0
      ≡ as_int (any_on (λ s. s.key_state) w w.number_of_devices 0 j)
unfolding process_changes_of_local_state
process-keys d w j v h =
    let keys = actual_keys w in
    let after_keys = key_loop keys input_key_count 0 w in
    let moved = movement_step (w.state_of d) after_keys in
    ap (λ (l : List ℕ). get_or l j 0)
      (key_state-button_loop (actual_buttons w) input_buttons_count 0 moved
        ∙ key_state-movement_step (w.state_of d) after_keys)
    ∙ get_or-key_loop keys input_key_count 0 w j (sym v.keys) h
    ∙ if-ltb_zero j _ _
    ∙ actual_keys-any w v.devices j
