-- ===== src/HumanInput/State.antt =====
-- The state structures of kernel/hardware/groups/human_input/human_input.h.
use blesk_os.Common.{ℕ, Bool, List, ◌==◌, ◌&&◌}

abbrev pub key_released : ℕ
key_released = 0

abbrev pub key_pressed : ℕ
key_pressed = 1

abbrev pub button_released : ℕ
button_released = 0

abbrev pub button_pressed : ℕ
button_pressed = 1

abbrev pub button_dragged : ℕ
button_dragged = 2

-- `INPUT_BUTTONS_COUNT` and `INPUT_MOVEMENTS_COUNT`; index 0 is not used.
abbrev pub input_buttons_count : ℕ
input_buttons_count = 6

abbrev pub input_movements_count : ℕ
input_movements_count = 5

abbrev pub no_movement_change : ℕ
no_movement_change = 0

abbrev pub new_movement_change : ℕ
new_movement_change = 1

-- `leds_t`: three fields of one bit.
pub record Leds : Type 0 where
  pub capslock : ℕ
  pub scrollock : ℕ
  pub numlock : ℕ

-- `human_input_device_state_t`.
pub record DeviceState : Type 0 where
  pub key_state : List ℕ
  pub leds : Leds
  pub button_state : List ℕ
  pub movement_state : ℕ
  pub movement_value : List ℕ

-- `human_input_global_state_t`.
pub record GlobalState : Type 0 where
  pub key_state : List ℕ
  pub key_state_timestamp : List ℕ
  pub leds : Leds
  pub button_state : List ℕ
  pub button_state_timestamp : List ℕ
  pub movement_state : ℕ
  pub movement_value : List ℕ
  pub last_pressed_key : ℕ
  pub last_pressed_key_unicode_value : ℕ
  pub last_pressed_key_event_count : ℕ

-- The comparison of two `leds_t` as words.
abbrev pub same_leds : Leds → Leds → Bool
same_leds a b = a.capslock == b.capslock && (a.scrollock == b.scrollock && a.numlock == b.numlock)
