-- ===== src/HumanInput/Keys/Control.antt =====
-- `human_input_keys_t`: modifier, lock, function and navigation keys.
use Prim.Native.Nat.{ℕ}

abbrev pub key_left_ctrl : ℕ
key_left_ctrl = 37

abbrev pub key_left_shift : ℕ
key_left_shift = 38

abbrev pub key_left_alt : ℕ
key_left_alt = 39

abbrev pub key_left_gui : ℕ
key_left_gui = 40

abbrev pub key_right_ctrl : ℕ
key_right_ctrl = 41

abbrev pub key_right_shift : ℕ
key_right_shift = 42

abbrev pub key_right_alt : ℕ
key_right_alt = 43

abbrev pub key_right_gui : ℕ
key_right_gui = 44

abbrev pub key_caps_lock : ℕ
key_caps_lock = 45

abbrev pub key_num_lock : ℕ
key_num_lock = 46

abbrev pub key_scroll_lock : ℕ
key_scroll_lock = 47

abbrev pub key_escape : ℕ
key_escape = 48

abbrev pub key_f1 : ℕ
key_f1 = 49

abbrev pub key_f2 : ℕ
key_f2 = 50

abbrev pub key_f3 : ℕ
key_f3 = 51

abbrev pub key_f4 : ℕ
key_f4 = 52

abbrev pub key_f5 : ℕ
key_f5 = 53

abbrev pub key_f6 : ℕ
key_f6 = 54

abbrev pub key_f7 : ℕ
key_f7 = 55

abbrev pub key_f8 : ℕ
key_f8 = 56

abbrev pub key_f9 : ℕ
key_f9 = 57

abbrev pub key_f10 : ℕ
key_f10 = 58

abbrev pub key_f11 : ℕ
key_f11 = 59

abbrev pub key_f12 : ℕ
key_f12 = 60

abbrev pub key_f13 : ℕ
key_f13 = 61

abbrev pub key_f14 : ℕ
key_f14 = 62

abbrev pub key_f15 : ℕ
key_f15 = 63

abbrev pub key_f16 : ℕ
key_f16 = 64

abbrev pub key_f17 : ℕ
key_f17 = 65

abbrev pub key_f18 : ℕ
key_f18 = 66

abbrev pub key_f19 : ℕ
key_f19 = 67

abbrev pub key_f20 : ℕ
key_f20 = 68

abbrev pub key_f21 : ℕ
key_f21 = 69

abbrev pub key_f22 : ℕ
key_f22 = 70

abbrev pub key_f23 : ℕ
key_f23 = 71

abbrev pub key_f24 : ℕ
key_f24 = 72

abbrev pub key_print_screen : ℕ
key_print_screen = 73

abbrev pub key_pause : ℕ
key_pause = 74

abbrev pub key_insert : ℕ
key_insert = 75

abbrev pub key_delete : ℕ
key_delete = 76

abbrev pub key_home : ℕ
key_home = 77

abbrev pub key_end : ℕ
key_end = 78

abbrev pub key_page_up : ℕ
key_page_up = 79

abbrev pub key_page_down : ℕ
key_page_down = 80

abbrev pub key_up_arrow : ℕ
key_up_arrow = 81

abbrev pub key_down_arrow : ℕ
key_down_arrow = 82

abbrev pub key_left_arrow : ℕ
key_left_arrow = 83

abbrev pub key_right_arrow : ℕ
key_right_arrow = 84
