-- ===== src/HumanInput/Ps2/Keyboard/Maps.antt =====
-- The parsing maps of kernel/hardware/devices/human_input/ps2_keyboard.c.
use blesk_os.Common.{ℕ, ◌+◌, List, [], ◌∷◌}
use blesk_os.HumanInput.Ps2.Tables.{set1_map, set1_e0_map, set2_map, set2_e0_map, set3_map}
use blesk_os.HumanInput.Ps2.Keyboard.{
  Word, num, table, Row, state_start, state_if, action_new_state, action_pressed, action_released,
  action_pressed_or_released, action_print_screen_pressed, action_print_screen_released,
  action_pause_pressed,
}

-- The five words of a row.
abbrev pub row : ℕ → ℕ → Word → ℕ → Word → Row
row s t o a g = record { state = s; test = t; operand = o; action = a; target = g }

-- `ps2_keyboard_scancode_set1_parsing_map`.
unfoldable pub parsing_map1 : List Row
parsing_map1 =
    row state_start state_if (num 0xE1) action_new_state (num 0xE1)
    ∷ row 0xE1 state_if (num 0x1D) action_new_state (num (0xE1 + 1))
    ∷ row (0xE1 + 1) state_if (num 0x45) action_new_state (num (0xE1 + 2))
    ∷ row (0xE1 + 2) state_if (num 0xE1) action_new_state (num (0xE1 + 3))
    ∷ row (0xE1 + 3) state_if (num 0x9D) action_new_state (num (0xE1 + 4))
    ∷ row (0xE1 + 4) state_if (num 0xC5) action_pause_pressed (num 0)
    ∷ row state_start state_if (num 0xE0) action_new_state (num 0xE0)
    ∷ row 0xE0 state_if (num 0x2A) action_new_state (num 0xE02A)
    ∷ row 0xE02A state_if (num 0xE0) action_new_state (num 0xE02AE0)
    ∷ row 0xE02AE0 state_if (num 0x37) action_print_screen_pressed (num 0)
    ∷ row 0xE0 state_if (num 0xB7) action_new_state (num 0xE0B7)
    ∷ row 0xE0B7 state_if (num 0xE0) action_new_state (num 0xE0B7E0)
    ∷ row 0xE0B7E0 state_if (num 0xAA) action_print_screen_released (num 0)
    ∷ row 0xE0 action_pressed_or_released (table set1_e0_map) 0 (num 0)
    ∷ row state_start action_pressed_or_released (table set1_map) 0 (num 0)
    ∷ []

-- `ps2_keyboard_scancode_set2_parsing_map`.
unfoldable pub parsing_map2 : List Row
parsing_map2 =
    row state_start state_if (num 0xE1) action_new_state (num 0xE1)
    ∷ row 0xE1 state_if (num 0x14) action_new_state (num (0xE1 + 1))
    ∷ row (0xE1 + 1) state_if (num 0x77) action_new_state (num (0xE1 + 2))
    ∷ row (0xE1 + 2) state_if (num 0xE1) action_new_state (num (0xE1 + 3))
    ∷ row (0xE1 + 3) state_if (num 0xF0) action_new_state (num (0xE1 + 4))
    ∷ row (0xE1 + 4) state_if (num 0x14) action_new_state (num (0xE1 + 5))
    ∷ row (0xE1 + 5) state_if (num 0xF0) action_new_state (num (0xE1 + 6))
    ∷ row (0xE1 + 6) state_if (num 0x77) action_pause_pressed (num 0)
    ∷ row state_start state_if (num 0xE0) action_new_state (num 0xE0)
    ∷ row 0xE0 state_if (num 0x12) action_new_state (num 0xE012)
    ∷ row 0xE012 state_if (num 0xE0) action_new_state (num 0xE012E0)
    ∷ row 0xE012E0 state_if (num 0x7C) action_print_screen_pressed (num 0)
    ∷ row 0xE0 state_if (num 0xF0) action_new_state (num 0xE0F0)
    ∷ row 0xE0F0 state_if (num 0x7C) action_new_state (num 0xE0F07C)
    ∷ row 0xE0F07C state_if (num 0xE0) action_new_state (num 0xE0F07CE0)
    ∷ row 0xE0F07CE0 state_if (num 0xF0) action_new_state (num 0xE0F07CE1)
    ∷ row 0xE0F07CE1 state_if (num 0x12) action_print_screen_released (num 0)
    ∷ row 0xE0F0 action_released (table set2_e0_map) 0 (num 0)
    ∷ row 0xE0 action_pressed (table set2_e0_map) 0 (num 0)
    ∷ row state_start state_if (num 0xF0) action_new_state (num 0xF0)
    ∷ row 0xF0 action_released (table set2_map) 0 (num 0)
    ∷ row state_start action_pressed (table set2_map) 0 (num 0)
    ∷ []

-- `ps2_keyboard_scancode_set3_parsing_map`.
unfoldable pub parsing_map3 : List Row
parsing_map3 =
    row state_start state_if (num 0xF0) action_new_state (num 0xF0)
    ∷ row 0xF0 action_released (table set3_map) 0 (num 0)
    ∷ row state_start action_pressed (table set3_map) 0 (num 0)
    ∷ []
