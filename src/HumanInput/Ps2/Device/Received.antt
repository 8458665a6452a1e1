-- ===== src/HumanInput/Ps2/Device/Received.antt =====
-- From the bytes that a keyboard sends to the global state.
use blesk_os.Common.{
  ℕ, List, ◌<◌, ◌≡◌, refl, Bool, Option, none, some, [], ◌∷◌, get_or, ltb, arith, true,
  passes_below, passes_below-at, subst,
}
use blesk_os.HumanInput.Keys.{input_key_count, key_print_screen}
use blesk_os.HumanInput.Designated.{element}
use blesk_os.HumanInput.Group.{Hid}
use blesk_os.HumanInput.Group.Process.{IsGlobal}
use blesk_os.HumanInput.Ps2.Keyboard.{Row, state_start}
use blesk_os.HumanInput.Ps2.Keyboard.Maps.{parsing_map1, parsing_map2, parsing_map3}
use blesk_os.HumanInput.Ps2.Keyboard.Codes.{
  Action, press, release, ext_press, ext_release, print_press, print_release, pause, ScanSet, set1,
  set2, set3,
}
use blesk_os.HumanInput.Ps2.Keyboard.Decode.{receive-stream1, receive-stream2, receive-stream3}
use blesk_os.HumanInput.Ps2.Tables.{set1_map, set1_e0_map, set2_map, set2_e0_map, set3_map}
use blesk_os.HumanInput.Ps2.Device.{put_event, keyboard_receive}
use blesk_os.HumanInput.Ps2.Device.Pressed.{put_event-pressed}

-- Every element of the tables is the number of a key.
abbrev in_range : List (ℕ × ℕ) → ℕ → Bool
in_range map b = ltb (element 0 map b) input_key_count

keys1 : passes_below (in_range set1_map) 0x59 ≡ true
unfolding passes_below element set1_map
keys1 = refl

keys1_e0 : passes_below (in_range set1_e0_map) 0x6E ≡ true
unfolding passes_below element set1_e0_map
keys1_e0 = refl

keys2 : passes_below (in_range set2_map) 0x84 ≡ true
unfolding passes_below element set2_map
keys2 = refl

keys2_e0 : passes_below (in_range set2_e0_map) 0x7E ≡ true
unfolding passes_below element set2_e0_map
keys2_e0 = refl

keys3 : passes_below (in_range set3_map) 0x8E ≡ true
unfolding passes_below element set3_map
keys3 = refl

key_below :
    (map : List (ℕ × ℕ)) (n b : ℕ)
    → b < n
    → passes_below (in_range map) n ≡ true
    → element 0 map b < input_key_count
key_below map n b h all = ground (arith, passes_below-at (in_range map) n b h all)

-- The three sets of scan codes, and what the driver parses them by.
pub data SetNumber : Type 0 where
  one : SetNumber
  two : SetNumber
  three : SetNumber

abbrev pub scan_set : SetNumber → ScanSet
scan_set one = set1
scan_set two = set2
scan_set three = set3

abbrev pub rows : SetNumber → List Row
rows one = parsing_map1
rows two = parsing_map2
rows three = parsing_map3

-- The key that an action presses and leaves pressed.
abbrev pub pressed_key : ScanSet → Action → Option ℕ
pressed_key s (press b) = some (element 0 s.plain b)
pressed_key s (release b) = none
pressed_key s (ext_press b) = some (element 0 s.extended b)
pressed_key s (ext_release b) = none
pressed_key s print_press = some key_print_screen
pressed_key s print_release = none
pressed_key s pause = none

-- The bytes lead from `w` to a state in which the key is pressed globally.
abbrev pub Presses : ℕ → List Row → List ℕ → Hid → ℕ → Type 0
Presses d map bytes w key =
    (w' : Hid) × (keyboard_receive d map bytes state_start w ≡ some (state_start, w'))
    × (get_or w'.global.key_state key 0 ≡ 1)

-- What an action that presses a key comes to, or that it presses none.
abbrev PressesKey : ℕ → List Row → List ℕ → Hid → Option ℕ → Type 0
PressesKey d map bytes w none = Unit
PressesKey d map bytes w (some key) = Presses d map bytes w key

module _ (d k : ℕ) (w : Hid) (v : IsGlobal w) (lt : k < w.number_of_devices)
    (at : (w.slots k).device ≡ d) where
  pressed_one :
      (a : Action) → set1.IsCode a → PressesKey d parsing_map1 (set1.bytes a) w (pressed_key set1 a)
  unfolding keyboard_receive
  pressed_one (press b) h =
      let key = element 0 set1_map b in
      (
        put_event d w key 1,
        receive-stream1 (put_event d) (press b ∷ []) w (h, tt),
        put_event-pressed d k key w v lt at (key_below set1_map 0x59 b h keys1),
      )
  pressed_one (release b) h = tt
  pressed_one (ext_press b) h =
      let key = element 0 set1_e0_map b in
      (
        put_event d w key 1,
        receive-stream1 (put_event d) (ext_press b ∷ []) w (h, tt),
        put_event-pressed d k key w v lt at (key_below set1_e0_map 0x6E b h.0 keys1_e0),
      )
  pressed_one (ext_release b) h = tt
  pressed_one print_press h = (
    put_event d w key_print_screen 1,
    receive-stream1 (put_event d) (print_press ∷ []) w (tt, tt),
    put_event-pressed d k key_print_screen w v lt at (omega arith),
  )
  pressed_one print_release h = tt
  pressed_one pause h = tt

  pressed_two :
      (a : Action) → set2.IsCode a → PressesKey d parsing_map2 (set2.bytes a) w (pressed_key set2 a)
  unfolding keyboard_receive
  pressed_two (press b) h =
      let key = element 0 set2_map b in
      (
        put_event d w key 1,
        receive-stream2 (put_event d) (press b ∷ []) w (h, tt),
        put_event-pressed d k key w v lt at (key_below set2_map 0x84 b h keys2),
      )
  pressed_two (release b) h = tt
  pressed_two (ext_press b) h =
      let key = element 0 set2_e0_map b in
      (
        put_event d w key 1,
        receive-stream2 (put_event d) (ext_press b ∷ []) w (h, tt),
        put_event-pressed d k key w v lt at (key_below set2_e0_map 0x7E b h.0 keys2_e0),
      )
  pressed_two (ext_release b) h = tt
  pressed_two print_press h = (
    put_event d w key_print_screen 1,
    receive-stream2 (put_event d) (print_press ∷ []) w (tt, tt),
    put_event-pressed d k key_print_screen w v lt at (omega arith),
  )
  pressed_two print_release h = tt
  pressed_two pause h = tt

  pressed_three :
      (a : Action) → set3.IsCode a → PressesKey d parsing_map3 (set3.bytes a) w (pressed_key set3 a)
  unfolding keyboard_receive
  pressed_three (press b) h =
      let key = element 0 set3_map b in
      (
        put_event d w key 1,
        receive-stream3 (put_event d) (press b ∷ []) w (h, tt),
        put_event-pressed d k key w v lt at (key_below set3_map 0x8E b h keys3),
      )
  pressed_three (release b) h = tt
  pressed_three (ext_press b) h = absurd h
  pressed_three (ext_release b) h = tt
  pressed_three print_press h = absurd h
  pressed_three print_release h = tt
  pressed_three pause h = tt

  pressed_any :
      (n : SetNumber) (a : Action)
      → (scan_set n).IsCode a
      → PressesKey d (rows n) ((scan_set n).bytes a) w (pressed_key (scan_set n) a)
  pressed_any one = pressed_one
  pressed_any two = pressed_two
  pressed_any three = pressed_three

-- If the keyboard `d` is in the group and the states are well formed, the bytes of any key press of
-- set 1, 2 or 3, plain, behind E0 or of the print screen key, lead to a state in which the key that
-- the tables name for that code is pressed globally. The pause key, which is released at once, is
-- left out.
pub keyboard_receive-pressed :
    (d k : ℕ) (n : SetNumber) (a : Action) (key : ℕ) (w : Hid)
    → IsGlobal w
    → k < w.number_of_devices
    → (w.slots k).device ≡ d
    → (scan_set n).IsCode a
    → pressed_key (scan_set n) a ≡ some key
    → Presses d (rows n) ((scan_set n).bytes a) w key
keyboard_receive-pressed d k n a key w v lt at code e =
    subst (PressesKey d (rows n) ((scan_set n).bytes a) w) e (pressed_any d k w v lt at n a code)
