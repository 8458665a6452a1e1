-- ===== src/HumanInput/Ps2/Device.antt =====
-- The PS/2 devices in the group: `ps2_keyboard_put_event` of ps2_keyboard.c and the end of
-- `ps2_mouse_receive` of ps2_mouse.c, which hand a device's new state to the group.
pub mod Pressed
pub mod Received
use blesk_os.Common.{ℕ, List, Option, ◌==◌, if◌then◌else◌}
use blesk_os.HumanInput.State.{DeviceState, key_released, key_pressed}
use blesk_os.HumanInput.Group.{
  Hid, put_state, reset_state_before_new_events, local_event_key, process_changes_of_local_state,
}
use blesk_os.HumanInput.Ps2.Keyboard
use blesk_os.HumanInput.Ps2.Keyboard.{Row}
use blesk_os.HumanInput.Ps2.Mouse
use blesk_os.HumanInput.Ps2.Mouse.{Mouse, Decoded, apply_packet}

-- The `switch` of `ps2_keyboard_put_event`.
unfoldable pub key_event : ℕ → ℕ → DeviceState → DeviceState
unfolding reset_state_before_new_events local_event_key
key_event key value s =
    let fresh = reset_state_before_new_events s in
    if value == 0
    then local_event_key key key_released fresh
    else if value == 1
    then local_event_key key key_pressed fresh
    else fresh

-- `ps2_keyboard_put_event` for the keyboard at the address `d`.
unfoldable pub put_event : ℕ → Hid → ℕ → ℕ → Hid
unfolding key_event process_changes_of_local_state
put_event d w key value =
    process_changes_of_local_state d
      (record w { state_of = put_state w.state_of d (key_event key value (w.state_of d)) })

-- `ps2_keyboard_receive` with all that its events cause.
unfoldable pub keyboard_receive : ℕ → List Row → List ℕ → ℕ → Hid → Option (ℕ × Hid)
keyboard_receive d = Keyboard.receive (put_event d)

-- The end of a packet in `ps2_mouse_receive` for the mouse at the address `d`.
unfoldable pub process_packet : ℕ → Hid → Decoded → Hid
unfolding apply_packet process_changes_of_local_state
process_packet d w p =
    process_changes_of_local_state d
      (record w { state_of = put_state w.state_of d (apply_packet p (w.state_of d)) })

unfoldable pub mouse_receive : ℕ → Mouse → Hid → List ℕ → Mouse × Hid
mouse_receive d = Mouse.receive (process_packet d)
