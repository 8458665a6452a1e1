-- ===== src/HumanInput/Ps2/Tables/Set2.antt =====
-- The scan code tables of set 2 in kernel/hardware/devices/human_input/ps2_keyboard.c,
-- each as the list of its designated initialisers in the order of the source.
use blesk_os.Common.{ℕ, List, [], ◌∷◌}
use blesk_os.HumanInput.Keys.{
  key_0, key_1, key_2, key_3, key_4, key_5, key_6, key_7, key_8, key_9, key_a, key_apostrophe,
  key_b, key_backslash, key_backspace, key_c, key_caps_lock, key_comma, key_d, key_delete,
  key_down_arrow, key_e, key_end, key_enter, key_equal, key_escape, key_f, key_f1, key_f10, key_f11,
  key_f12, key_f2, key_f3, key_f4, key_f5, key_f6, key_f7, key_f8, key_f9, key_g, key_grave, key_h,
  key_home, key_i, key_insert, key_j, key_k, key_l, key_launch_apps, key_launch_browser,
  key_launch_calculator, key_launch_mail, key_launch_my_computer, key_left_alt, key_left_arrow,
  key_left_bracket, key_left_ctrl, key_left_gui, key_left_shift, key_m, key_media_next,
  key_media_play_pause, key_media_prev, key_media_select, key_media_stop, key_minus, key_n,
  key_num_lock, key_numpad_0, key_numpad_1, key_numpad_2, key_numpad_3, key_numpad_4, key_numpad_5,
  key_numpad_6, key_numpad_7, key_numpad_8, key_numpad_9, key_numpad_asterisk, key_numpad_dot,
  key_numpad_enter, key_numpad_minus, key_numpad_plus, key_numpad_slash, key_o, key_p,
  key_page_down, key_page_up, key_period, key_power, key_q, key_r, key_right_alt, key_right_arrow,
  key_right_bracket, key_right_ctrl, key_right_gui, key_right_shift, key_s, key_scroll_lock,
  key_semicolon, key_slash, key_sleep, key_space, key_t, key_tab, key_u, key_up_arrow, key_v,
  key_volume_down, key_volume_mute, key_volume_up, key_w, key_wake, key_www_back,
  key_www_favourites, key_www_forward, key_www_home, key_www_refresh, key_www_stop, key_x, key_y,
  key_z,
}

-- `ps2_keyboard_scancode_set2_map`.
unfoldable pub set2_map : List (ℕ × ℕ)
set2_map =
    (0x01, key_f9)
    ∷ (0x03, key_f5)
    ∷ (0x04, key_f3)
    ∷ (0x05, key_f1)
    ∷ (0x06, key_f2)
    ∷ (0x07, key_f12)
    ∷ (0x09, key_f10)
    ∷ (0x0A, key_f8)
    ∷ (0x0B, key_f6)
    ∷ (0x0C, key_f4)
    ∷ (0x0D, key_tab)
    ∷ (0x0E, key_grave)
    ∷ (0x11, key_left_alt)
    ∷ (0x12, key_left_shift)
    ∷ (0x14, key_left_ctrl)
    ∷ (0x15, key_q)
    ∷ (0x16, key_1)
    ∷ (0x1A, key_z)
    ∷ (0x1B, key_s)
    ∷ (0x1C, key_a)
    ∷ (0x1D, key_w)
    ∷ (0x1E, key_2)
    ∷ (0x21, key_c)
    ∷ (0x22, key_x)
    ∷ (0x23, key_d)
    ∷ (0x24, key_e)
    ∷ (0x25, key_4)
    ∷ (0x26, key_3)
    ∷ (0x29, key_space)
    ∷ (0x2A, key_v)
    ∷ (0x2B, key_f)
    ∷ (0x2C, key_t)
    ∷ (0x2D, key_r)
    ∷ (0x2E, key_5)
    ∷ (0x31, key_n)
    ∷ (0x32, key_b)
    ∷ (0x33, key_h)
    ∷ (0x34, key_g)
    ∷ (0x35, key_y)
    ∷ (0x36, key_6)
    ∷ (0x3A, key_m)
    ∷ (0x3B, key_j)
    ∷ (0x3C, key_u)
    ∷ (0x3D, key_7)
    ∷ (0x3E, key_8)
    ∷ (0x41, key_comma)
    ∷ (0x42, key_k)
    ∷ (0x43, key_i)
    ∷ (0x44, key_o)
    ∷ (0x45, key_0)
    ∷ (0x46, key_9)
    ∷ (0x49, key_period)
    ∷ (0x4A, key_slash)
    ∷ (0x4B, key_l)
    ∷ (0x4C, key_semicolon)
    ∷ (0x4D, key_p)
    ∷ (0x4E, key_minus)
    ∷ (0x52, key_apostrophe)
    ∷ (0x54, key_left_bracket)
    ∷ (0x55, key_equal)
    ∷ (0x58, key_caps_lock)
    ∷ (0x59, key_right_shift)
    ∷ (0x5A, key_enter)
    ∷ (0x5B, key_right_bracket)
    ∷ (0x5D, key_backslash)
    ∷ (0x66, key_backspace)
    ∷ (0x69, key_numpad_1)
    ∷ (0x6B, key_numpad_4)
    ∷ (0x6C, key_numpad_7)
    ∷ (0x70, key_numpad_0)
    ∷ (0x71, key_numpad_dot)
    ∷ (0x72, key_numpad_2)
    ∷ (0x73, key_numpad_5)
    ∷ (0x74, key_numpad_6)
    ∷ (0x75, key_numpad_8)
    ∷ (0x76, key_escape)
    ∷ (0x77, key_num_lock)
    ∷ (0x78, key_f11)
    ∷ (0x79, key_numpad_plus)
    ∷ (0x7A, key_numpad_3)
    ∷ (0x7B, key_numpad_minus)
    ∷ (0x7C, key_numpad_asterisk)
    ∷ (0x7D, key_numpad_9)
    ∷ (0x7E, key_scroll_lock)
    ∷ (0x83, key_f7)
    ∷ []

-- `ps2_keyboard_scancode_set2_e0_map`.
unfoldable pub set2_e0_map : List (ℕ × ℕ)
set2_e0_map =
    (0x10, key_launch_browser)
    ∷ (0x11, key_right_alt)
    ∷ (0x14, key_right_ctrl)
    ∷ (0x15, key_media_prev)
    ∷ (0x18, key_www_favourites)
    ∷ (0x1F, key_left_gui)
    ∷ (0x20, key_www_refresh)
    ∷ (0x21, key_volume_down)
    ∷ (0x23, key_volume_mute)
    ∷ (0x27, key_right_gui)
    ∷ (0x28, key_www_stop)
    ∷ (0x2B, key_launch_calculator)
    ∷ (0x2F, key_launch_apps)
    ∷ (0x30, key_www_forward)
    ∷ (0x32, key_volume_up)
    ∷ (0x34, key_media_play_pause)
    ∷ (0x37, key_power)
    ∷ (0x38, key_www_back)
    ∷ (0x3A, key_www_home)
    ∷ (0x3B, key_media_stop)
    ∷ (0x3F, key_sleep)
    ∷ (0x40, key_launch_my_computer)
    ∷ (0x48, key_launch_mail)
    ∷ (0x4A, key_numpad_slash)
    ∷ (0x4D, key_media_next)
    ∷ (0x50, key_media_select)
    ∷ (0x5A, key_numpad_enter)
    ∷ (0x5E, key_wake)
    ∷ (0x69, key_end)
    ∷ (0x6B, key_left_arrow)
    ∷ (0x6C, key_home)
    ∷ (0x70, key_insert)
    ∷ (0x71, key_delete)
    ∷ (0x72, key_down_arrow)
    ∷ (0x74, key_right_arrow)
    ∷ (0x75, key_up_arrow)
    ∷ (0x7A, key_page_down)
    ∷ (0x7D, key_page_up)
    ∷ []
