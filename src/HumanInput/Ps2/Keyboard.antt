-- ===== src/HumanInput/Ps2/Keyboard.antt =====
-- The byte parser of kernel/hardware/devices/human_input/ps2_keyboard.c: rows of five words that
-- `ps2_keyboard_receive` searches for the current state. What `ps2_keyboard_put_event` does to the
-- rest of the kernel is the argument `put`; HumanInput.Group gives it.
pub mod Maps
pub mod Codes
pub mod Decode
use blesk_os.Common.{
  ℕ, ◌-◌, Bool, false, Option, none, some, List, [], ◌∷◌, ltb, ◌==◌, if◌then◌else◌,
}
use blesk_os.HumanInput.Keys.{key_print_screen, key_pause}
use blesk_os.HumanInput.Designated.{fetch}

-- The unnamed enumeration of parsing states and actions.
abbrev pub state_start : ℕ
state_start = 0x01

abbrev pub state_if : ℕ
state_if = 0x02

abbrev pub action_new_state : ℕ
action_new_state = 0x03

abbrev pub action_pressed : ℕ
action_pressed = 0x04

abbrev pub action_released : ℕ
action_released = 0x05

abbrev pub action_pressed_or_released : ℕ
action_pressed_or_released = 0x06

abbrev pub action_print_screen_pressed : ℕ
action_print_screen_pressed = 0x07

abbrev pub action_print_screen_released : ℕ
action_print_screen_released = 0x08

abbrev pub action_pause_pressed : ℕ
action_pause_pressed = 0x09

-- A word of a row: a number, or the address of a table that is cast to a number.
pub data Word : Type 0 where
  num : ℕ → Word
  table : List (ℕ × ℕ) → Word

-- Five consecutive words of a parsing map. The word 0 behind the last row is the end of the list.
pub record Row : Type 0 where
  pub state : ℕ
  pub test : ℕ
  pub operand : Word
  pub action : ℕ
  pub target : Word

-- `*buffer == parse_map[2]`: no byte equals an address.
abbrev pub is_byte : ℕ → Word → Bool
is_byte b (num n) = b == n
is_byte b (table t) = false

-- A word in the place of a new state. No map stands an address there.
abbrev pub as_state : Word → ℕ
as_state (num n) = n
as_state (table t) = 0

module _ {W : Type 0} (put : W → ℕ → ℕ → W) where
  -- `map[index]` and the event for it; `none` is a read outside of the array, or through a word
  -- that is no address.
  unfoldable pub convert : Word → ℕ → ℕ → W → Option (ℕ × W)
  convert (num n) index value w = none
  convert (table t) index value w = elim (fetch t index) [
    | none ↦ none
    | some key ↦ some (state_start, put w key value)
  ]

  -- The branch that looks at the highest bit of the byte.
  unfoldable pub convert_either : Word → ℕ → W → Option (ℕ × W)
  unfolding convert
  convert_either t b w = if ltb b 0x80 then convert t b 1 w else convert t (b - 0x80) 0 w

  -- The actions of a row whose byte was received; a row with none of them is passed over.
  unfoldable pub fire : Row → ℕ → W → Option (ℕ × W) → Option (ℕ × W)
  unfolding convert convert_either
  fire r b w rest =
      if r.action == action_new_state
      then some (as_state r.target, w)
      else if r.action == action_print_screen_pressed
      then some (state_start, put w key_print_screen 1)
      else if r.action == action_print_screen_released
      then some (state_start, put w key_print_screen 0)
      else if r.action == action_pause_pressed
      then some (state_start, put (put w key_pause 1) key_pause 0)
      else if r.action == action_pressed
      then convert r.target b 1 w
      else if r.action == action_released
      then convert r.target b 0 w
      else if r.action == action_pressed_or_released
      then convert_either r.operand b w
      else rest

  -- A row of the current state; `rest` is the search in the rows behind it.
  unfoldable pub apply_row : Row → ℕ → W → Option (ℕ × W) → Option (ℕ × W)
  unfolding fire
  apply_row r b w rest =
      if r.test == state_if
      then (if is_byte b r.operand then fire r b w rest else rest)
      else if r.test == action_pressed
      then convert r.operand b 1 w
      else if r.test == action_released
      then convert r.operand b 0 w
      else if r.test == action_pressed_or_released
      then convert_either r.operand b w
      else rest

  -- The loop over the rows for one byte; at the end the parser starts anew.
  unfoldable pub parse_byte : List Row → ℕ → ℕ → W → Option (ℕ × W)
  unfolding apply_row
  parse_byte [] state b w = some (state_start, w)
  parse_byte (r ∷ rows) state b w =
      let rest = parse_byte rows state b w in
      if state == r.state then apply_row r b w rest else rest

  -- `ps2_keyboard_receive`: the bytes of the buffer in order.
  unfoldable pub receive : List Row → List ℕ → ℕ → W → Option (ℕ × W)
  unfolding parse_byte
  receive map [] state w = some (state, w)
  receive map (b ∷ bytes) state w = elim (parse_byte map state b w) [
    | none ↦ none
    | some (state', w') ↦ receive map bytes state' w'
  ]
