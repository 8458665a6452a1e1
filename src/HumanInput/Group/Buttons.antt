-- ===== src/HumanInput/Group/Buttons.antt =====
-- The buttons after `hid_process_changes_of_local_state`: down exactly when some device has them
-- down, and dragged when they were down before a movement.
use blesk_os.Common.{
  ℕ, zero, suc, ◌+◌, ◌<◌, ◌≡◌, refl, sym, ap, ◌∙◌, Bool, true, false, ◌&&◌, List, [], ◌∷◌, ◌==◌,
  ltb, get_or, length, as_int, arith, length-set, get_or-set, if◌then◌else◌, if-ltb_zero,
}
use blesk_os.HumanInput.Keys.{input_key_count}
use blesk_os.HumanInput.State.{DeviceState, GlobalState, input_buttons_count, new_movement_change}
use blesk_os.HumanInput.Group.{
  Hid, key_step, key_loop, drag_buttons, movement_step, change_key, button_step, button_loop,
  process_changes_of_local_state, actual_keys, actual_buttons, forget_released, remember_pressed,
}
use blesk_os.HumanInput.Group.Merge.{any_on, actual_buttons-any}
use blesk_os.HumanInput.Group.Process.{IsGlobal}

-- A button's next state: `moved` says that the device moved, `on` that the button is down at some
-- device.
unfoldable pub next_button : Bool → Bool → ℕ → ℕ
next_button moved false old = 0
next_button moved true old = if old == 0 then 1 else if old == 1 && moved then 2 else old

get_or-drag_buttons :
    (bs : List ℕ) (j : ℕ)
    → get_or (drag_buttons bs) j 0 ≡ (if get_or bs j 0 == 1 then 2 else get_or bs j 0)
unfolding drag_buttons
get_or-drag_buttons [] j = refl
get_or-drag_buttons (b ∷ bs) zero = refl
get_or-drag_buttons (b ∷ bs) (suc j) = get_or-drag_buttons bs j

length-drag_buttons : (bs : List ℕ) → length (drag_buttons bs) ≡ length bs
unfolding drag_buttons
length-drag_buttons [] = refl
length-drag_buttons (b ∷ bs) = ap suc (length-drag_buttons bs)

button_state-change_key :
    (i v : ℕ) (w : Hid) → (change_key i v w).global.button_state ≡ w.global.button_state
unfolding change_key
button_state-change_key i v w = button_state-remember i v _ _ ∙ button_state-forget i v _
  where
    button_state-remember :
        (i v u : ℕ) (g : GlobalState) → (remember_pressed i v u g).button_state ≡ g.button_state
    button_state-remember i v u g = ground arith

    button_state-forget :
        (i v : ℕ) (g : GlobalState) → (forget_released i v g).button_state ≡ g.button_state
    button_state-forget i v g = ground arith

button_state-key_loop :
    (actual : List ℕ) (n i : ℕ) (w : Hid)
    → (key_loop actual n i w).global.button_state ≡ w.global.button_state
unfolding key_loop
button_state-key_loop actual zero i w = refl
button_state-key_loop actual (suc n) i w =
    button_state-key_loop actual n (i + 1) (key_step actual i w) ∙ one
  where
    one : (key_step actual i w).global.button_state ≡ w.global.button_state
    one = ground (arith, button_state-change_key i (get_or actual i 0) w)

-- What the `switch` makes of an old state and a merged one.
switched : ℕ → ℕ → ℕ
switched old new =
    if old == 0
    then (if new == 0 then 0 else 1)
    else if old == 1
    then (if new == 1 then 1 else 0)
    else if old == 2
    then (if new == 1 then 2 else 0)
    else old

length-button_step :
    (actual : List ℕ) (i : ℕ) (w : Hid)
    → length (button_step actual i w).global.button_state ≡ length w.global.button_state
unfolding button_step
length-button_step actual i w =
    ground (arith, length-set w.global.button_state i 0, length-set w.global.button_state i 1)

get_or-button_step :
    (actual : List ℕ) (i : ℕ) (w : Hid) (j : ℕ)
    → i < length w.global.button_state
    → get_or (button_step actual i w).global.button_state j 0 ≡ (
        if j == i
        then switched (get_or w.global.button_state j 0) (get_or actual j 0)
        else get_or w.global.button_state j 0)
unfolding button_step switched
get_or-button_step actual i w j h =
    ground
      (arith, get_or-set w.global.button_state i 0 j h, get_or-set w.global.button_state i 1 j h)

get_or-button_loop :
    (actual : List ℕ) (n i : ℕ) (w : Hid) (j : ℕ)
    → i + n ≡ length w.global.button_state
    → j < i + n
    → get_or (button_loop actual n i w).global.button_state j 0 ≡ (
        if ltb j i
        then get_or w.global.button_state j 0
        else switched (get_or w.global.button_state j 0) (get_or actual j 0))
unfolding button_loop
get_or-button_loop actual zero i w j l h = ground arith
get_or-button_loop actual (suc n) i w j l h = ground (
  arith,
  length-button_step actual i w,
  get_or-button_step actual i w j,
  get_or-button_loop actual n (i + 1) (button_step actual i w) j,
)

-- The device moved since the last events.
abbrev pub moved : ℕ → Hid → Bool
moved d w = (w.state_of d).movement_state == new_movement_change

length-movement_step :
    (s : DeviceState) (w : Hid)
    → length (movement_step s w).global.button_state ≡ length w.global.button_state
unfolding movement_step
length-movement_step s w = ground (arith, length-drag_buttons w.global.button_state)

-- A pressed button becomes a dragged one if `m`.
abbrev dragged : Bool → ℕ → ℕ
dragged m old = if m then (if old == 1 then 2 else old) else old

get_or-movement_step :
    (s : DeviceState) (w : Hid) (j : ℕ)
    → get_or (movement_step s w).global.button_state j 0
      ≡ dragged (s.movement_state == new_movement_change) (get_or w.global.button_state j 0)
unfolding movement_step
get_or-movement_step s w j = ground (arith, get_or-drag_buttons w.global.button_state j)

switched-next :
    (m on : Bool) (old : ℕ) → old < 3 → switched (dragged m old) (as_int on) ≡ next_button m on old
unfolding switched next_button
switched-next m on old h = ground arith

-- After any change of a device, on states whose arrays are well formed, a button is up when no
-- device has it down; otherwise it is pressed if it was up, dragged if it was pressed and the
-- device moved, and as before in the other cases.
pub process-buttons :
    (d : ℕ) (w : Hid) (j : ℕ)
    → IsGlobal w
    → j < input_buttons_count
    → get_or w.global.button_state j 0 < 3
    → get_or (process_changes_of_local_state d w).global.button_state j 0
      ≡ next_button
          (moved d w)
          (any_on (λ s. s.button_state) w w.number_of_devices 0 j)
          (get_or w.global.button_state j 0)
unfolding process_changes_of_local_state
process-buttons d w j v h k =
    let s = w.state_of d in
    let w1 = key_loop (actual_keys w) input_key_count 0 w in
    let same = button_state-key_loop (actual_keys w) input_key_count 0 w in
    let sized = length-movement_step s w1 ∙ ap length same ∙ v.buttons in
    let old =
      get_or-movement_step s w1 j
      ∙ ap (λ (bs : List ℕ). dragged (moved d w) (get_or bs j 0)) same in
    get_or-button_loop (actual_buttons w) input_buttons_count 0 (movement_step s w1) j (sym sized) h
    ∙ if-ltb_zero j _ _
    ∙ ap (λ (o : ℕ). switched o (get_or (actual_buttons w) j 0)) old
    ∙ ap (switched _) (actual_buttons-any w v.devices j)
    ∙ switched-next (moved d w) _ (get_or w.global.button_state j 0) k
