-- ===== src/HumanInput/Keys/Media.antt =====
-- `human_input_keys_t`: media, launch, browser and international keys.
use Prim.Native.Nat.{ℕ}

abbrev pub key_volume_mute : ℕ
key_volume_mute = 116

abbrev pub key_volume_down : ℕ
key_volume_down = 117

abbrev pub key_volume_up : ℕ
key_volume_up = 118

abbrev pub key_media_next : ℕ
key_media_next = 119

abbrev pub key_media_prev : ℕ
key_media_prev = 120

abbrev pub key_media_stop : ℕ
key_media_stop = 121

abbrev pub key_media_play_pause : ℕ
key_media_play_pause = 122

abbrev pub key_media_select : ℕ
key_media_select = 123

abbrev pub key_launch_mail : ℕ
key_launch_mail = 124

abbrev pub key_launch_browser : ℕ
key_launch_browser = 125

abbrev pub key_launch_calculator : ℕ
key_launch_calculator = 126

abbrev pub key_launch_apps : ℕ
key_launch_apps = 127

abbrev pub key_launch_media : ℕ
key_launch_media = 128

abbrev pub key_launch_my_computer : ℕ
key_launch_my_computer = 129

abbrev pub key_power : ℕ
key_power = 130

abbrev pub key_sleep : ℕ
key_sleep = 131

abbrev pub key_wake : ℕ
key_wake = 132

abbrev pub key_www_favourites : ℕ
key_www_favourites = 133

abbrev pub key_www_refresh : ℕ
key_www_refresh = 134

abbrev pub key_www_stop : ℕ
key_www_stop = 135

abbrev pub key_www_forward : ℕ
key_www_forward = 136

abbrev pub key_www_back : ℕ
key_www_back = 137

abbrev pub key_www_home : ℕ
key_www_home = 138

abbrev pub key_www_search : ℕ
key_www_search = 139

abbrev pub key_intl_backslash : ℕ
key_intl_backslash = 140

abbrev pub key_intl_ro : ℕ
key_intl_ro = 141

abbrev pub key_intl_yen : ℕ
key_intl_yen = 142

abbrev pub key_intl_henkan : ℕ
key_intl_henkan = 143

abbrev pub key_intl_muhenkan : ℕ
key_intl_muhenkan = 144

abbrev pub key_intl_katakanahiragana : ℕ
key_intl_katakanahiragana = 145

abbrev pub key_intl_zenkakuhankaku : ℕ
key_intl_zenkakuhankaku = 146

abbrev pub key_abnt_c1 : ℕ
key_abnt_c1 = 147

abbrev pub key_abnt_c2 : ℕ
key_abnt_c2 = 148
