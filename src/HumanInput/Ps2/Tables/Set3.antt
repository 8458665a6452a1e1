-- ===== src/HumanInput/Ps2/Tables/Set3.antt =====
-- The scan code tables of set 3 in kernel/hardware/devices/human_input/ps2_keyboard.c,
-- each as the list of its designated initialisers in the order of the source.
use blesk_os.Common.{ℕ, List, [], ◌∷◌}
use blesk_os.HumanInput.Keys.{
  key_0, key_1, key_2, key_3, key_4, key_5, key_6, key_7, key_8, key_9, key_a, key_apostrophe,
  key_b, key_backslash, key_backspace, key_c, key_caps_lock, key_comma, key_d, key_delete,
  key_down_arrow, key_e, key_end, key_enter, key_equal, key_escape, key_f, key_f1, key_f10, key_f11,
  key_f12, key_f2, key_f3, key_f4, key_f5, key_f6, key_f7, key_f8, key_f9, key_g, key_grave, key_h,
  key_home, key_i, key_insert, key_j, key_k, key_l, key_launch_apps, key_left_alt, key_left_arrow,
  key_left_bracket, key_left_ctrl, key_left_gui, key_left_shift, key_m, key_minus, key_n,
  key_num_lock, key_numpad_0, key_numpad_1, key_numpad_2, key_numpad_3, key_numpad_4, key_numpad_5,
  key_numpad_6, key_numpad_7, key_numpad_8, key_numpad_9, key_numpad_asterisk, key_numpad_dot,
  key_numpad_enter, key_numpad_minus, key_numpad_plus, key_numpad_slash, key_o, key_p,
  key_page_down, key_page_up, key_pause, key_period, key_print_screen, key_q, key_r, key_right_alt,
  key_right_arrow, key_right_bracket, key_right_ctrl, key_right_gui, key_right_shift, key_s,
  key_scroll_lock, key_semicolon, key_slash, key_space, key_t, key_tab, key_u, key_up_arrow, key_v,
  key_w, key_x, key_y, key_z,
}

-- `ps2_keyboard_scancode_set3_map`.
unfoldable pub set3_map : List (ℕ × ℕ)
set3_map =
    (0x1C, key_a)
    ∷ (0x32, key_b)
    ∷ (0x21, key_c)
    ∷ (0x23, key_d)
    ∷ (0x24, key_e)
    ∷ (0x2B, key_f)
    ∷ (0x34, key_g)
    ∷ (0x33, key_h)
    ∷ (0x43, key_i)
    ∷ (0x3B, key_j)
    ∷ (0x42, key_k)
    ∷ (0x4B, key_l)
    ∷ (0x3A, key_m)
    ∷ (0x31, key_n)
    ∷ (0x44, key_o)
    ∷ (0x4D, key_p)
    ∷ (0x15, key_q)
    ∷ (0x2D, key_r)
    ∷ (0x1B, key_s)
    ∷ (0x2C, key_t)
    ∷ (0x3C, key_u)
    ∷ (0x2A, key_v)
    ∷ (0x1D, key_w)
    ∷ (0x22, key_x)
    ∷ (0x35, key_y)
    ∷ (0x1A, key_z)
    ∷ (0x45, key_0)
    ∷ (0x16, key_1)
    ∷ (0x1E, key_2)
    ∷ (0x26, key_3)
    ∷ (0x25, key_4)
    ∷ (0x2E, key_5)
    ∷ (0x36, key_6)
    ∷ (0x3D, key_7)
    ∷ (0x3E, key_8)
    ∷ (0x46, key_9)
    ∷ (0x0E, key_grave)
    ∷ (0x4E, key_minus)
    ∷ (0x55, key_equal)
    ∷ (0x5C, key_backslash)
    ∷ (0x66, key_backspace)
    ∷ (0x29, key_space)
    ∷ (0x0D, key_tab)
    ∷ (0x14, key_caps_lock)
    ∷ (0x12, key_left_shift)
    ∷ (0x11, key_left_ctrl)
    ∷ (0x8B, key_left_gui)
    ∷ (0x19, key_left_alt)
    ∷ (0x59, key_right_shift)
    ∷ (0x58, key_right_ctrl)
    ∷ (0x8C, key_right_gui)
    ∷ (0x39, key_right_alt)
    ∷ (0x8D, key_launch_apps)
    ∷ (0x5A, key_enter)
    ∷ (0x08, key_escape)
    ∷ (0x07, key_f1)
    ∷ (0x0F, key_f2)
    ∷ (0x17, key_f3)
    ∷ (0x1F, key_f4)
    ∷ (0x27, key_f5)
    ∷ (0x2F, key_f6)
    ∷ (0x37, key_f7)
    ∷ (0x3F, key_f8)
    ∷ (0x47, key_f9)
    ∷ (0x4F, key_f10)
    ∷ (0x56, key_f11)
    ∷ (0x5E, key_f12)
    ∷ (0x57, key_print_screen)
    ∷ (0x5F, key_scroll_lock)
    ∷ (0x62, key_pause)
    ∷ (0x54, key_left_bracket)
    ∷ (0x67, key_insert)
    ∷ (0x6E, key_home)
    ∷ (0x6F, key_page_up)
    ∷ (0x64, key_delete)
    ∷ (0x65, key_end)
    ∷ (0x6D, key_page_down)
    ∷ (0x63, key_up_arrow)
    ∷ (0x61, key_left_arrow)
    ∷ (0x60, key_down_arrow)
    ∷ (0x6A, key_right_arrow)
    ∷ (0x76, key_num_lock)
    ∷ (0x4A, key_numpad_slash)
    ∷ (0x7E, key_numpad_asterisk)
    ∷ (0x4E, key_numpad_minus)
    ∷ (0x7C, key_numpad_plus)
    ∷ (0x79, key_numpad_enter)
    ∷ (0x71, key_numpad_dot)
    ∷ (0x70, key_numpad_0)
    ∷ (0x69, key_numpad_1)
    ∷ (0x72, key_numpad_2)
    ∷ (0x7A, key_numpad_3)
    ∷ (0x6B, key_numpad_4)
    ∷ (0x73, key_numpad_5)
    ∷ (0x74, key_numpad_6)
    ∷ (0x6C, key_numpad_7)
    ∷ (0x75, key_numpad_8)
    ∷ (0x7D, key_numpad_9)
    ∷ (0x5B, key_right_bracket)
    ∷ (0x4C, key_semicolon)
    ∷ (0x52, key_apostrophe)
    ∷ (0x41, key_comma)
    ∷ (0x49, key_period)
    ∷ (0x4A, key_slash)
    ∷ []
