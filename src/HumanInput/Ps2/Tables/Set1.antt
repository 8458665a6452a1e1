-- ===== src/HumanInput/Ps2/Tables/Set1.antt =====
-- The scan code tables of set 1 in kernel/hardware/devices/human_input/ps2_keyboard.c,
-- each as the list of its designated initialisers in the order of the source.
use blesk_os.Common.{ℕ, List, [], ◌∷◌}
use blesk_os.HumanInput.Keys.{
  key_0, key_1, key_2, key_3, key_4, key_5, key_6, key_7, key_8, key_9, key_a, key_apostrophe,
  key_b, key_backslash, key_backspace, key_c, key_caps_lock, key_comma, key_d, key_delete,
  key_down_arrow, key_e, key_end, key_enter, key_equal, key_escape, key_f, key_f1, key_f10, key_f11,
  key_f12, key_f2, key_f3, key_f4, key_f5, key_f6, key_f7, key_f8, key_f9, key_g, key_grave, key_h,
  key_home, key_i, key_insert, key_j, key_k, key_l, key_launch_apps, key_launch_calculator,
  key_launch_mail, key_launch_my_computer, key_left_alt, key_left_arrow, key_left_bracket,
  key_left_ctrl, key_left_gui, key_left_shift, key_m, key_media_next, key_media_play_pause,
  key_media_prev, key_media_select, key_media_stop, key_minus, key_n, key_num_lock, key_numpad_0,
  key_numpad_1, key_numpad_2, key_numpad_3, key_numpad_4, key_numpad_5, key_numpad_6, key_numpad_7,
  key_numpad_8, key_numpad_9, key_numpad_asterisk, key_numpad_dot, key_numpad_enter,
  key_numpad_minus, key_numpad_plus, key_numpad_slash, key_o, key_p, key_page_down, key_page_up,
  key_period, key_power, key_q, key_r, key_right_alt, key_right_arrow, key_right_bracket,
  key_right_ctrl, key_right_gui, key_right_shift, key_s, key_scroll_lock, key_semicolon, key_slash,
  key_sleep, key_space, key_t, key_tab, key_u, key_up_arrow, key_v, key_volume_down,
  key_volume_mute, key_volume_up, key_w, key_wake, key_www_back, key_www_favourites,
  key_www_forward, key_www_home, key_www_refresh, key_www_search, key_www_stop, key_x, key_y, key_z,
}

-- `ps2_keyboard_scancode_set1_map`.
unfoldable pub set1_map : List (ℕ × ℕ)
set1_map =
    (0x01, key_escape)
    ∷ (0x02, key_1)
    ∷ (0x03, key_2)
    ∷ (0x04, key_3)
    ∷ (0x05, key_4)
    ∷ (0x06, key_5)
    ∷ (0x07, key_6)
    ∷ (0x08, key_7)
    ∷ (0x09, key_8)
    ∷ (0x0A, key_9)
    ∷ (0x0B, key_0)
    ∷ (0x0C, key_minus)
    ∷ (0x0D, key_equal)
    ∷ (0x0E, key_backspace)
    ∷ (0x0F, key_tab)
    ∷ (0x10, key_q)
    ∷ (0x11, key_w)
    ∷ (0x12, key_e)
    ∷ (0x13, key_r)
    ∷ (0x14, key_t)
    ∷ (0x15, key_y)
    ∷ (0x16, key_u)
    ∷ (0x17, key_i)
    ∷ (0x18, key_o)
    ∷ (0x19, key_p)
    ∷ (0x1A, key_left_bracket)
    ∷ (0x1B, key_right_bracket)
    ∷ (0x1C, key_enter)
    ∷ (0x1D, key_left_ctrl)
    ∷ (0x1E, key_a)
    ∷ (0x1F, key_s)
    ∷ (0x20, key_d)
    ∷ (0x21, key_f)
    ∷ (0x22, key_g)
    ∷ (0x23, key_h)
    ∷ (0x24, key_j)
    ∷ (0x25, key_k)
    ∷ (0x26, key_l)
    ∷ (0x27, key_semicolon)
    ∷ (0x28, key_apostrophe)
    ∷ (0x29, key_grave)
    ∷ (0x2A, key_left_shift)
    ∷ (0x2B, key_backslash)
    ∷ (0x2C, key_z)
    ∷ (0x2D, key_x)
    ∷ (0x2E, key_c)
    ∷ (0x2F, key_v)
    ∷ (0x30, key_b)
    ∷ (0x31, key_n)
    ∷ (0x32, key_m)
    ∷ (0x33, key_comma)
    ∷ (0x34, key_period)
    ∷ (0x35, key_slash)
    ∷ (0x36, key_right_shift)
    ∷ (0x37, key_numpad_asterisk)
    ∷ (0x38, key_left_alt)
    ∷ (0x39, key_space)
    ∷ (0x3A, key_caps_lock)
    ∷ (0x3B, key_f1)
    ∷ (0x3C, key_f2)
    ∷ (0x3D, key_f3)
    ∷ (0x3E, key_f4)
    ∷ (0x3F, key_f5)
    ∷ (0x40, key_f6)
    ∷ (0x41, key_f7)
    ∷ (0x42, key_f8)
    ∷ (0x43, key_f9)
    ∷ (0x44, key_f10)
    ∷ (0x45, key_num_lock)
    ∷ (0x46, key_scroll_lock)
    ∷ (0x47, key_numpad_7)
    ∷ (0x48, key_numpad_8)
    ∷ (0x49, key_numpad_9)
    ∷ (0x4A, key_numpad_minus)
    ∷ (0x4B, key_numpad_4)
    ∷ (0x4C, key_numpad_5)
    ∷ (0x4D, key_numpad_6)
    ∷ (0x4E, key_numpad_plus)
    ∷ (0x4F, key_numpad_1)
    ∷ (0x50, key_numpad_2)
    ∷ (0x51, key_numpad_3)
    ∷ (0x52, key_numpad_0)
    ∷ (0x53, key_numpad_dot)
    ∷ (0x57, key_f11)
    ∷ (0x58, key_f12)
    ∷ []

-- `ps2_keyboard_scancode_set1_e0_map`.
unfoldable pub set1_e0_map : List (ℕ × ℕ)
set1_e0_map =
    (0x10, key_media_prev)
    ∷ (0x19, key_media_next)
    ∷ (0x1C, key_numpad_enter)
    ∷ (0x1D, key_right_ctrl)
    ∷ (0x20, key_volume_mute)
    ∷ (0x21, key_launch_calculator)
    ∷ (0x22, key_media_play_pause)
    ∷ (0x24, key_media_stop)
    ∷ (0x2E, key_volume_down)
    ∷ (0x30, key_volume_up)
    ∷ (0x32, key_www_home)
    ∷ (0x35, key_numpad_slash)
    ∷ (0x38, key_right_alt)
    ∷ (0x47, key_home)
    ∷ (0x48, key_up_arrow)
    ∷ (0x49, key_page_up)
    ∷ (0x4B, key_left_arrow)
    ∷ (0x4D, key_right_arrow)
    ∷ (0x4F, key_end)
    ∷ (0x50, key_down_arrow)
    ∷ (0x51, key_page_down)
    ∷ (0x52, key_insert)
    ∷ (0x53, key_delete)
    ∷ (0x5B, key_left_gui)
    ∷ (0x5C, key_right_gui)
    ∷ (0x5D, key_launch_apps)
    ∷ (0x5E, key_power)
    ∷ (0x5F, key_sleep)
    ∷ (0x63, key_wake)
    ∷ (0x65, key_www_search)
    ∷ (0x66, key_www_favourites)
    ∷ (0x67, key_www_refresh)
    ∷ (0x68, key_www_stop)
    ∷ (0x69, key_www_forward)
    ∷ (0x6A, key_www_back)
    ∷ (0x6B, key_launch_my_computer)
    ∷ (0x6C, key_launch_mail)
    ∷ (0x6D, key_media_select)
    ∷ []
