-- ===== src/HumanInput/Ps2/Device/Pressed.antt =====
-- A key that a keyboard of the group presses is pressed in the global state.
use blesk_os.Common.{
  ℕ, zero, suc, ◌+◌, ◌<◌, ◌≡◌, ap, subst, Bool-cases, inl, inr, ◌∙◌, true, List, [], ◌∷◌, ◌==◌,
  get_or, set, as_int, arith, length-set, get_or-set_self,
}
use blesk_os.HumanInput.Keys.{input_key_count}
use blesk_os.HumanInput.State.{DeviceState}
use blesk_os.HumanInput.Group.{Hid, put_state}
use blesk_os.HumanInput.Group.Merge.{any_on, IsDeviceState}
use blesk_os.HumanInput.Group.Process.{IsGlobal, process-keys}
use blesk_os.HumanInput.Ps2.Device.{key_event, put_event}

set-bits :
    (xs : List ℕ) (i v : ℕ)
    → v < 2
    → ((j : ℕ) → get_or xs j 0 < 2)
    → (j : ℕ) → get_or (set xs i v) j 0 < 2
set-bits [] i v h k j = omega arith
set-bits (x ∷ xs) zero v h k zero = h
set-bits (x ∷ xs) zero v h k (suc j) = k (suc j)
set-bits (x ∷ xs) (suc i) v h k zero = k zero
set-bits (x ∷ xs) (suc i) v h k (suc j) = set-bits xs i v h (λ n. k (suc n)) j

key_event-IsDeviceState :
    (key value : ℕ) (s : DeviceState) → IsDeviceState s → IsDeviceState (key_event key value s)
unfolding key_event
key_event-IsDeviceState key value s v = record {
  keys = ground (arith, v.keys, length-set s.key_state key 0, length-set s.key_state key 1);
  keys_bits = λ j. ground (
    arith,
    v.keys_bits j,
    set-bits s.key_state key 0 (omega arith) v.keys_bits j,
    set-bits s.key_state key 1 (omega arith) v.keys_bits j,
  );
  buttons = ground (arith, v.buttons);
  buttons_bits = λ j. ground (arith, v.buttons_bits j);
}

-- The state of one device is replaced by a well-formed one.
put_state-IsGlobal :
    (w : Hid) (d : ℕ) (s : DeviceState)
    → IsGlobal w
    → IsDeviceState s
    → IsGlobal (record w { state_of = put_state w.state_of d s })
put_state-IsGlobal w d s v u = record {
  keys = v.keys;
  buttons = v.buttons;
  devices =
      λ e. elim (Bool-cases (e == d)) [ inl here ↦ rw here u | inr other ↦ rw other (v.devices e) ];
}

any_on-slot :
    (field : DeviceState → List ℕ) (w : Hid) (n m i k j : ℕ)
    → m < n
    → k ≡ i + m
    → get_or (field (w.state_of (w.slots k).device)) j 0 ≡ 1
    → any_on field w n i j ≡ true
unfolding any_on
any_on-slot field w zero m i k j a b e = absurd (omega arith)
any_on-slot field w (suc n) zero i k j a b e =
    let same : k ≡ i = omega arith in
    let hit : get_or (field (w.state_of (w.slots i).device)) j 0 ≡ 1 =
      subst (λ (t : ℕ). get_or (field (w.state_of (w.slots t).device)) j 0 ≡ 1) same e in
    ground arith
any_on-slot field w (suc n) (suc m) i k j a b e =
    let later = any_on-slot field w n m (i + 1) k j (omega arith) (omega arith) e in ground arith

eq_self : (d : ℕ) → (d == d) ≡ true
eq_self d = ground arith

-- If the device `d` is in the group and the states are well formed, then after the event that
-- `key` is pressed at `d` the key is pressed globally.
pub put_event-pressed :
    (d k key : ℕ) (w : Hid)
    → IsGlobal w
    → k < w.number_of_devices
    → (w.slots k).device ≡ d
    → key < input_key_count
    → get_or (put_event d w key 1).global.key_state key 0 ≡ 1
unfolding put_event key_event
put_event-pressed d k key w v lt at small =
    let s = key_event key 1 (w.state_of d) in
    let w' : Hid = record w { state_of = put_state w.state_of d s } in
    let u =
      put_state-IsGlobal w d s v (key_event-IsDeviceState key 1 (w.state_of d) (v.devices d)) in
    let self = get_or-set_self (w.state_of d).key_state key 1 0 (rw (v.devices d).keys small) in
    let hit : get_or (w'.state_of (w'.slots k).device).key_state key 0 ≡ 1 =
      rw (at, eq_self d) self in
    process-keys d w' key u small
    ∙ ap as_int
        (any_on-slot (λ t. t.key_state) w' w.number_of_devices k 0 k key lt (omega arith) hit)
