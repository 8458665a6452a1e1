-- ===== src/HumanInput/Layout/En.antt =====
-- The EN tables of kernel/hardware/groups/human_input/keyboard_layout.c, from keys to code points,
-- as lists of designated initialisers.
use blesk_os.Common.{ℕ, List, [], ◌∷◌}
use blesk_os.HumanInput.Keys.{
  key_0, key_1, key_2, key_3, key_4, key_5, key_6, key_7, key_8, key_9, key_a, key_apostrophe,
  key_b, key_backslash, key_c, key_comma, key_d, key_e, key_enter, key_equal, key_f, key_g,
  key_grave, key_h, key_i, key_j, key_k, key_l, key_left_bracket, key_m, key_minus, key_n,
  key_numpad_0, key_numpad_1, key_numpad_2, key_numpad_3, key_numpad_4, key_numpad_5, key_numpad_6,
  key_numpad_7, key_numpad_8, key_numpad_9, key_numpad_asterisk, key_numpad_dot, key_numpad_minus,
  key_numpad_plus, key_numpad_slash, key_o, key_p, key_period, key_q, key_r, key_right_bracket,
  key_s, key_semicolon, key_slash, key_space, key_t, key_tab, key_u, key_v, key_w, key_x, key_y,
  key_z,
}

-- `en_keyboard_no_shift_to_unicode`.
unfoldable pub en_no_shift : List (ℕ × ℕ)
en_no_shift =
    (key_a, 97)
    ∷ (key_b, 98)
    ∷ (key_c, 99)
    ∷ (key_d, 100)
    ∷ (key_e, 101)
    ∷ (key_f, 102)
    ∷ (key_g, 103)
    ∷ (key_h, 104)
    ∷ (key_i, 105)
    ∷ (key_j, 106)
    ∷ (key_k, 107)
    ∷ (key_l, 108)
    ∷ (key_m, 109)
    ∷ (key_n, 110)
    ∷ (key_o, 111)
    ∷ (key_p, 112)
    ∷ (key_q, 113)
    ∷ (key_r, 114)
    ∷ (key_s, 115)
    ∷ (key_t, 116)
    ∷ (key_u, 117)
    ∷ (key_v, 118)
    ∷ (key_w, 119)
    ∷ (key_x, 120)
    ∷ (key_y, 121)
    ∷ (key_z, 122)
    ∷ (key_0, 48)
    ∷ (key_1, 49)
    ∷ (key_2, 50)
    ∷ (key_3, 51)
    ∷ (key_4, 52)
    ∷ (key_5, 53)
    ∷ (key_6, 54)
    ∷ (key_7, 55)
    ∷ (key_8, 56)
    ∷ (key_9, 57)
    ∷ (key_grave, 96)
    ∷ (key_minus, 45)
    ∷ (key_equal, 61)
    ∷ (key_left_bracket, 91)
    ∷ (key_right_bracket, 93)
    ∷ (key_backslash, 92)
    ∷ (key_semicolon, 59)
    ∷ (key_apostrophe, 39)
    ∷ (key_comma, 44)
    ∷ (key_period, 46)
    ∷ (key_slash, 47)
    ∷ (key_space, 32)
    ∷ (key_tab, 9)
    ∷ (key_enter, 10)
    ∷ (key_numpad_0, 48)
    ∷ (key_numpad_1, 49)
    ∷ (key_numpad_2, 50)
    ∷ (key_numpad_3, 51)
    ∷ (key_numpad_4, 52)
    ∷ (key_numpad_5, 53)
    ∷ (key_numpad_6, 54)
    ∷ (key_numpad_7, 55)
    ∷ (key_numpad_8, 56)
    ∷ (key_numpad_9, 57)
    ∷ (key_numpad_dot, 46)
    ∷ (key_numpad_plus, 43)
    ∷ (key_numpad_minus, 45)
    ∷ (key_numpad_asterisk, 42)
    ∷ (key_numpad_slash, 47)
    ∷ []

-- `en_keyboard_with_shift_to_unicode`.
unfoldable pub en_with_shift : List (ℕ × ℕ)
en_with_shift =
    (key_a, 65)
    ∷ (key_b, 66)
    ∷ (key_c, 67)
    ∷ (key_d, 68)
    ∷ (key_e, 69)
    ∷ (key_f, 70)
    ∷ (key_g, 71)
    ∷ (key_h, 72)
    ∷ (key_i, 73)
    ∷ (key_j, 74)
    ∷ (key_k, 75)
    ∷ (key_l, 76)
    ∷ (key_m, 77)
    ∷ (key_n, 78)
    ∷ (key_o, 79)
    ∷ (key_p, 80)
    ∷ (key_q, 81)
    ∷ (key_r, 82)
    ∷ (key_s, 83)
    ∷ (key_t, 84)
    ∷ (key_u, 85)
    ∷ (key_v, 86)
    ∷ (key_w, 87)
    ∷ (key_x, 88)
    ∷ (key_y, 89)
    ∷ (key_z, 90)
    ∷ (key_0, 41)
    ∷ (key_1, 33)
    ∷ (key_2, 64)
    ∷ (key_3, 35)
    ∷ (key_4, 36)
    ∷ (key_5, 37)
    ∷ (key_6, 94)
    ∷ (key_7, 38)
    ∷ (key_8, 42)
    ∷ (key_9, 40)
    ∷ (key_grave, 126)
    ∷ (key_minus, 95)
    ∷ (key_equal, 43)
    ∷ (key_left_bracket, 123)
    ∷ (key_right_bracket, 125)
    ∷ (key_backslash, 124)
    ∷ (key_semicolon, 58)
    ∷ (key_apostrophe, 34)
    ∷ (key_comma, 60)
    ∷ (key_period, 62)
    ∷ (key_slash, 63)
    ∷ (key_space, 32)
    ∷ (key_tab, 9)
    ∷ (key_enter, 10)
    ∷ (key_numpad_0, 48)
    ∷ (key_numpad_1, 49)
    ∷ (key_numpad_2, 50)
    ∷ (key_numpad_3, 51)
    ∷ (key_numpad_4, 52)
    ∷ (key_numpad_5, 53)
    ∷ (key_numpad_6, 54)
    ∷ (key_numpad_7, 55)
    ∷ (key_numpad_8, 56)
    ∷ (key_numpad_9, 57)
    ∷ (key_numpad_dot, 46)
    ∷ (key_numpad_plus, 43)
    ∷ (key_numpad_minus, 45)
    ∷ (key_numpad_asterisk, 42)
    ∷ (key_numpad_slash, 47)
    ∷ []
