-- ===== src/HumanInput/Tests.antt =====
-- Concrete inputs for the human input modules.
use blesk_os.Common.{
  ℕ, ◌+◌, ◌<◌, ◌≡◌, ◌≤◌, refl, true, none, some, List, [], ◌∷◌, ◌++◌, arith, get_or, replicate,
  length-replicate,
}
use blesk_os.HumanInput.Keys.{
  input_key_count, key_a, key_right_ctrl, key_print_screen, key_pause, key_f9, key_up_arrow,
  key_caps_lock, key_slash,
}
use blesk_os.HumanInput.Designated.{element}
use blesk_os.HumanInput.State.{Leds, DeviceState, GlobalState}
use blesk_os.HumanInput.Events.{EventList}
use blesk_os.HumanInput.Events.Queue.{event}
use blesk_os.HumanInput.Layout.{en_no_shift, en_with_shift}
use blesk_os.HumanInput.Ps2.Device.Received.{Presses, two, keyboard_receive-pressed}
use blesk_os.HumanInput.Group.{Hid, process_changes_of_local_state}
use blesk_os.HumanInput.Group.Merge.{any_on, IsDeviceState, get_or-replicate_zero}
use blesk_os.HumanInput.Group.Process.{IsGlobal, process-keys}
use blesk_os.HumanInput.Group.Buttons.{next_button, process-buttons}
use blesk_os.HumanInput.Ps2.Keyboard
use blesk_os.HumanInput.Ps2.Keyboard.{state_start, parse_byte}
use blesk_os.HumanInput.Ps2.Keyboard.Maps.{parsing_map1, parsing_map2, parsing_map3}
use blesk_os.HumanInput.Ps2.Keyboard.Codes.{
  press, release, ext_press, ext_release, print_press, pause,
}
use blesk_os.HumanInput.Ps2.Keyboard.Decode.{
  receive-stream1, receive-stream2, receive-stream3, parse_byte-fault1,
}
use blesk_os.HumanInput.Ps2.Tables.{set1_map, set1_e0_map, set2_map, set2_e0_map, set3_map}
use blesk_os.HumanInput.Ps2.Mouse.{Decoded, decode_y}
use blesk_os.HumanInput.Ps2.Mouse.Movement.{decode_y-negated}
use blesk_os.HumanInput.Ps2.Mouse.Packets.{Packet}

-- The events in the order in which they come.
abbrev Trace : Type 0
Trace = List (ℕ × ℕ)

abbrev trace : Trace → ℕ → ℕ → Trace
trace w key value = w ++ ((key, value) ∷ [])

receive-stream1_example :
    Keyboard.receive trace parsing_map1
      (0x1E ∷ 0x9E ∷ 0xE0 ∷ 0x1D ∷ 0xE0 ∷ 0x2A ∷ 0xE0 ∷ 0x37 ∷ [])
      state_start
      []
    ≡ some (state_start, (key_a, 1) ∷ (key_a, 0) ∷ (key_right_ctrl, 1) ∷ (key_print_screen, 1) ∷ [])
unfolding element set1_map set1_e0_map
receive-stream1_example =
    receive-stream1 trace (press 0x1E ∷ release 0x1E ∷ ext_press 0x1D ∷ print_press ∷ []) []
      (omega arith)

receive-stream2_example :
    Keyboard.receive trace parsing_map2
      (0xF0 ∷ 0x01 ∷ 0xE0 ∷ 0xF0 ∷ 0x75 ∷ 0xE1 ∷ 0x14 ∷ 0x77 ∷ 0xE1 ∷ 0xF0 ∷ 0x14 ∷ 0xF0 ∷ 0x77
        ∷ [])
      state_start
      []
    ≡ some (state_start, (key_f9, 0) ∷ (key_up_arrow, 0) ∷ (key_pause, 1) ∷ (key_pause, 0) ∷ [])
unfolding element set2_map set2_e0_map
receive-stream2_example =
    receive-stream2 trace (release 0x01 ∷ ext_release 0x75 ∷ pause ∷ []) [] (omega arith)

receive-stream3_example :
    Keyboard.receive trace parsing_map3 (0x1C ∷ 0xF0 ∷ 0x14 ∷ []) state_start []
    ≡ some (state_start, (key_a, 1) ∷ (key_caps_lock, 0) ∷ [])
unfolding element set3_map
receive-stream3_example = receive-stream3 trace (press 0x1C ∷ release 0x14 ∷ []) [] (omega arith)

parse_byte-fault1_example :
    (parse_byte trace parsing_map1 state_start 0x60 [] ≡ none → 0x59 ≤ 0x60)
    × (0x59 ≤ 0x60 → parse_byte trace parsing_map1 state_start 0x60 [] ≡ none)
parse_byte-fault1_example =
    parse_byte-fault1 trace 0x60 [] (omega arith) (omega arith) (omega arith)

-- Set 3 has two initialisers for 0x4A, and the second, the slash, hides that of the keypad.
set3_slash : element 0 set3_map 0x4A ≡ key_slash
unfolding element set3_map
set3_slash = refl

abbrev pub off : Leds
off = record { capslock = 0; scrollock = 0; numlock = 0 }

abbrev no_keys : List ℕ
no_keys = replicate input_key_count 0

abbrev idle : DeviceState
idle = record {
  key_state = no_keys;
  leds = off;
  button_state = 0 ∷ 0 ∷ 0 ∷ 0 ∷ 0 ∷ 0 ∷ [];
  movement_state = 0;
  movement_value = 0 ∷ 0 ∷ 0 ∷ 0 ∷ 0 ∷ [];
}

abbrev pub quiet : GlobalState
quiet = record {
  key_state = no_keys;
  key_state_timestamp = no_keys;
  leds = off;
  button_state = 0 ∷ 1 ∷ 0 ∷ 0 ∷ 0 ∷ 0 ∷ [];
  button_state_timestamp = 0 ∷ 0 ∷ 0 ∷ 0 ∷ 0 ∷ 0 ∷ [];
  movement_state = 0;
  movement_value = 0 ∷ 0 ∷ 0 ∷ 0 ∷ 0 ∷ [];
  last_pressed_key = 0;
  last_pressed_key_unicode_value = 0;
  last_pressed_key_event_count = 0;
}

-- A ring with one event, at its end.
abbrev pub ring : EventList
ring = record {
  stack = λ i. event quiet 1 i;
  producer = 0;
  consumer = 15;
  is_there_screen_subsystem = true;
  unblocked = 0;
}

abbrev pub world : Hid
world = record {
  state_of = λ d. idle;
  number_of_devices = 2;
  slots = λ i. record { device = i + 10; sets_leds = true };
  global = quiet;
  events = ring;
  layout = record { name = b'E' ∷ b'N' ∷ []; no_shift = en_no_shift; with_shift = en_with_shift };
  now = λ n. n;
  readings = 0;
}

button_bits : (j : ℕ) → get_or {A = ℕ} (0 ∷ 0 ∷ 0 ∷ 0 ∷ 0 ∷ 0 ∷ []) j 0 < 2
button_bits j = rw (get_or-replicate_zero 6 j) (omega arith)

idle-IsDeviceState : IsDeviceState idle
idle-IsDeviceState = record {
  keys = length-replicate {A = ℕ} input_key_count 0;
  keys_bits = λ j. rw (get_or-replicate_zero input_key_count j) (omega arith);
  buttons = refl;
  buttons_bits = button_bits;
}

world-IsGlobal : IsGlobal world
world-IsGlobal = record {
  keys = length-replicate {A = ℕ} input_key_count 0;
  buttons = refl;
  devices = λ d. idle-IsDeviceState;
}

abbrev full_ring : EventList
full_ring = record ring { producer = 14 }

process-keys_example : get_or (process_changes_of_local_state 10 world).global.key_state key_a 0 ≡ 0
unfolding any_on
process-keys_example = process-keys 10 world key_a world-IsGlobal (omega arith)

process-buttons_example :
    get_or (process_changes_of_local_state 10 world).global.button_state 1 0 ≡ 0
unfolding any_on next_button
process-buttons_example = process-buttons 10 world 1 world-IsGlobal (omega arith) (omega arith)

-- The code of the right control key in set 2, which is 0x14 behind E0.
keyboard_receive-pressed_example :
    Presses 11 parsing_map2 (0xE0 ∷ 0x14 ∷ []) world (element 0 set2_e0_map 0x14)
keyboard_receive-pressed_example =
    keyboard_receive-pressed 11 1 two (ext_press 0x14) (element 0 set2_e0_map 0x14) world
      world-IsGlobal (omega arith) refl (omega arith, (λ e. absurd (omega (arith, e)))) refl

decode_y-negated_example : decode_y 0x08 0x03 ≡ 0xFFFFFFFD
decode_y-negated_example = decode_y-negated 0x08 0x03 (omega arith)

abbrev collect : List Decoded → Decoded → List Decoded
collect w p = w ++ (p ∷ [])

abbrev sample : Packet
sample = record { first = 0x09; second = 5; third = 2; fourth = 1 }

abbrev overflowed : Packet
overflowed = record { first = 0x89; second = 5; third = 2; fourth = 0 }
