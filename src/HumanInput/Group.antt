-- ===== src/HumanInput/Group.antt =====
-- kernel/hardware/groups/human_input/human_input.c: the devices of the group, and how a change of
-- one device's state becomes the global state and events.
pub mod Merge
pub mod Devices
pub mod Process
pub mod Buttons
use blesk_os.Common.{
  ℕ, zero, suc, ◌+◌, ◌%◌, ◌^◌, bit_or, Bool, true, not, List, [], ◌∷◌, ◌==◌, ltb, get_or, set,
  replicate, if◌then◌else◌,
}
use blesk_os.HumanInput.Keys.{input_key_count, key_caps_lock}
use blesk_os.HumanInput.State.{
  Leds, DeviceState, GlobalState, key_released, key_pressed, button_released, button_pressed,
  button_dragged, input_buttons_count, input_movements_count, no_movement_change,
  new_movement_change,
}
use blesk_os.HumanInput.Events.{
  EventList, add_event, event_key_pressed, event_key_released, event_mouse_button_pressed,
  event_mouse_button_released, event_mouse_movement,
}
use blesk_os.HumanInput.Layout.{Layout, get_key_unicode_value}

-- `human_input_device_t`: the device, and whether its functions have `keyboard_set_leds`.
pub record Slot : Type 0 where
  pub device : ℕ
  pub sets_leds : Bool

-- What the group's code reads and writes: the state of each device, at the device's address; the
-- slots of the group; the global state; the ring of events; the layout; and the clock, as its
-- reading of each call so far.
pub record Hid : Type 0 where
  pub state_of : ℕ → DeviceState
  pub number_of_devices : ℕ
  pub slots : ℕ → Slot
  pub global : GlobalState
  pub events : EventList
  pub layout : Layout
  pub now : ℕ → ℕ
  pub readings : ℕ

abbrev pub put_state : (ℕ → DeviceState) → ℕ → DeviceState → ℕ → DeviceState
put_state f d s i = if i == d then s else f i

-- `hid_reset_state_before_new_events`.
unfoldable pub reset_state_before_new_events : DeviceState → DeviceState
reset_state_before_new_events s = record s { movement_state = no_movement_change }

-- `hid_local_event_key`.
unfoldable pub local_event_key : ℕ → ℕ → DeviceState → DeviceState
local_event_key key value s = record s { key_state = set s.key_state key value }

-- `hid_local_event_button`.
unfoldable pub local_event_button : ℕ → ℕ → DeviceState → DeviceState
local_event_button button value s = record s { button_state = set s.button_state button value }

-- `hid_local_event_movement`.
unfoldable pub local_event_movement : ℕ → ℕ → DeviceState → DeviceState
local_event_movement movement value s = record s {
  movement_value = set s.movement_value movement value;
  movement_state = new_movement_change;
}

-- `a[j] |= b[j]` for each index of `a`.
unfoldable pub or_into : List ℕ → List ℕ → List ℕ
or_into [] b = []
or_into (x ∷ a) [] = x ∷ a
or_into (x ∷ a) (y ∷ b) = bit_or x y ∷ or_into a b

-- The loop over the slots from `i` on, `n` of them, that merges one array of their states.
unfoldable pub merge : (DeviceState → List ℕ) → Hid → ℕ → ℕ → List ℕ → List ℕ
unfolding or_into
merge field w zero i acc = acc
merge field w (suc n) i acc =
    merge field w n (i + 1) (or_into acc (field (w.state_of (w.slots i).device)))

-- The keys and buttons of `actual_global_state`.
unfoldable pub actual_keys : Hid → List ℕ
unfolding merge
actual_keys w = merge (λ s. s.key_state) w w.number_of_devices 0 (replicate input_key_count 0)

unfoldable pub actual_buttons : Hid → List ℕ
unfolding merge
actual_buttons w =
    merge (λ s. s.button_state) w w.number_of_devices 0 (replicate input_buttons_count 0)

-- A reading of the clock, as a `uint32_t`.
abbrev pub timestamp : Hid → ℕ
timestamp w = w.now w.readings % 2 ^ 32

-- The key that was released stops being the last one that was pressed.
unfoldable pub forget_released : ℕ → ℕ → GlobalState → GlobalState
forget_released i value g =
    if g.last_pressed_key == i
    then (if value == key_released
        then record g { last_pressed_key = 0; last_pressed_key_event_count = 0 }
        else g)
    else g

-- A key that was pressed: caps lock turns its light, another key becomes the last one.
unfoldable pub remember_pressed : ℕ → ℕ → ℕ → GlobalState → GlobalState
remember_pressed i value unicode g =
    if value == key_pressed
    then (if i == key_caps_lock
        then record g {
          leds = record (g.leds) { capslock = if g.leds.capslock == 0 then 1 else 0 };
        }
        else record g {
          last_pressed_key = i;
          last_pressed_key_unicode_value = unicode;
          last_pressed_key_event_count = 0;
        })
    else g

-- The new state of key `i` and its time.
unfoldable pub store_key : ℕ → ℕ → ℕ → GlobalState → GlobalState
store_key i value time g = record g {
  key_state = set g.key_state i value;
  key_state_timestamp = set g.key_state_timestamp i time;
}

-- A key whose state changed to `value`.
unfoldable pub change_key : ℕ → ℕ → Hid → Hid
unfolding store_key forget_released remember_pressed
change_key i value w =
    let stored = store_key i value (timestamp w) w.global in
    let unicode = get_key_unicode_value w.layout stored i in
    let g = remember_pressed i value unicode (forget_released i value stored) in
    record w {
      global = g;
      readings = w.readings + 1;
      events =
          add_event g (if value == key_pressed then event_key_pressed else event_key_released) i
            w.events;
    }

-- One round of the loop over the keys.
unfoldable pub key_step : List ℕ → ℕ → Hid → Hid
unfolding change_key
key_step actual i w =
    if get_or w.global.key_state i 0 == get_or actual i 0
    then w
    else change_key i (get_or actual i 0) w

-- `n` rounds from key `i` on.
unfoldable pub key_loop : List ℕ → ℕ → ℕ → Hid → Hid
unfolding key_step
key_loop actual zero i w = w
key_loop actual (suc n) i w = key_loop actual n (i + 1) (key_step actual i w)

-- A pressed button becomes a dragged one.
unfoldable pub drag_buttons : List ℕ → List ℕ
drag_buttons [] = []
drag_buttons (b ∷ bs) = (if b == button_pressed then button_dragged else b) ∷ drag_buttons bs

-- The values `0 .. INPUT_MOVEMENTS_COUNT - 1` of the device that moved.
unfoldable pub copy_movements : List ℕ → List ℕ → List ℕ
copy_movements [] src = []
copy_movements (x ∷ dst) [] = x ∷ dst
copy_movements (x ∷ dst) (y ∷ src) = y ∷ copy_movements dst src

-- The part for a movement of the device in state `s`.
unfoldable pub movement_step : DeviceState → Hid → Hid
unfolding drag_buttons copy_movements
movement_step s w =
    if s.movement_state == new_movement_change
    then (let g = record (w.global) {
      button_state = drag_buttons w.global.button_state;
      movement_value = copy_movements w.global.movement_value s.movement_value;
    } in
        record w { global = g; events = add_event g event_mouse_movement 0 w.events })
    else w

-- A button whose state changes to `value`, with its event.
unfoldable pub change_button : ℕ → ℕ → ℕ → Hid → Hid
change_button i value kind w =
    let g = record (w.global) {
      button_state = set w.global.button_state i value;
      button_state_timestamp = set w.global.button_state_timestamp i (timestamp w);
    } in
    record w { global = g; readings = w.readings + 1; events = add_event g kind i w.events }

-- One round of the loop over the buttons: the `switch`.
unfoldable pub button_step : List ℕ → ℕ → Hid → Hid
unfolding change_button
button_step actual i w =
    let old = get_or w.global.button_state i 0 in
    let new = get_or actual i 0 in
    if old == button_released
    then (if new == button_released
        then w
        else change_button i button_pressed event_mouse_button_pressed w)
    else if old == button_pressed
    then (if new == button_pressed
        then w
        else change_button i button_released event_mouse_button_released w)
    else if old == button_dragged
    then (if new == button_pressed
        then w
        else change_button i button_released event_mouse_button_released w)
    else w

unfoldable pub button_loop : List ℕ → ℕ → ℕ → Hid → Hid
unfolding button_step
button_loop actual zero i w = w
button_loop actual (suc n) i w = button_loop actual n (i + 1) (button_step actual i w)

-- `hid_process_changes_of_local_state` for the device `d`. Nobody else runs between its lock and
-- its unlock.
unfoldable pub process_changes_of_local_state : ℕ → Hid → Hid
unfolding actual_keys actual_buttons key_loop movement_step button_loop
process_changes_of_local_state d w =
    let keys = actual_keys w in
    let buttons = actual_buttons w in
    let after_keys = key_loop keys input_key_count 0 w in
    let after_movement = movement_step (w.state_of d) after_keys in
    button_loop buttons input_buttons_count 0 after_movement
