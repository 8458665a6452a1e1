-- ===== src/HumanInput/Keys/Symbols.antt =====
-- `human_input_keys_t`: punctuation and the numeric keypad.
use Prim.Native.Nat.{ℕ}

abbrev pub key_grave : ℕ
key_grave = 85

abbrev pub key_minus : ℕ
key_minus = 86

abbrev pub key_equal : ℕ
key_equal = 87

abbrev pub key_backspace : ℕ
key_backspace = 88

abbrev pub key_tab : ℕ
key_tab = 89

abbrev pub key_left_bracket : ℕ
key_left_bracket = 90

abbrev pub key_right_bracket : ℕ
key_right_bracket = 91

abbrev pub key_backslash : ℕ
key_backslash = 92

abbrev pub key_semicolon : ℕ
key_semicolon = 93

abbrev pub key_apostrophe : ℕ
key_apostrophe = 94

abbrev pub key_comma : ℕ
key_comma = 95

abbrev pub key_period : ℕ
key_period = 96

abbrev pub key_slash : ℕ
key_slash = 97

abbrev pub key_space : ℕ
key_space = 98

abbrev pub key_enter : ℕ
key_enter = 99

abbrev pub key_numpad_0 : ℕ
key_numpad_0 = 100

abbrev pub key_numpad_1 : ℕ
key_numpad_1 = 101

abbrev pub key_numpad_2 : ℕ
key_numpad_2 = 102

abbrev pub key_numpad_3 : ℕ
key_numpad_3 = 103

abbrev pub key_numpad_4 : ℕ
key_numpad_4 = 104

abbrev pub key_numpad_5 : ℕ
key_numpad_5 = 105

abbrev pub key_numpad_6 : ℕ
key_numpad_6 = 106

abbrev pub key_numpad_7 : ℕ
key_numpad_7 = 107

abbrev pub key_numpad_8 : ℕ
key_numpad_8 = 108

abbrev pub key_numpad_9 : ℕ
key_numpad_9 = 109

abbrev pub key_numpad_dot : ℕ
key_numpad_dot = 110

abbrev pub key_numpad_enter : ℕ
key_numpad_enter = 111

abbrev pub key_numpad_plus : ℕ
key_numpad_plus = 112

abbrev pub key_numpad_minus : ℕ
key_numpad_minus = 113

abbrev pub key_numpad_asterisk : ℕ
key_numpad_asterisk = 114

abbrev pub key_numpad_slash : ℕ
key_numpad_slash = 115
