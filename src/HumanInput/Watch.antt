-- ===== src/HumanInput/Watch.antt =====
-- `check_human_input_state` of kernel/hardware/groups/human_input/human_input.c, and
-- `ps2_keyboard_set_leds` of kernel/hardware/devices/human_input/ps2_keyboard.c, which it calls. A
-- round of the loop runs alone here; sleeping and changing to another thread are left out.
pub mod Lights
pub mod Repeat
mod Tests
use blesk_os.Common.{
  ℕ, zero, suc, ◌+◌, ◌-◌, ◌/◌, bit_or, Bool, not, List, [], ◌∷◌, ◌==◌, ltb, get_or, as_int, sub32,
  if◌then◌else◌,
}
use blesk_os.HumanInput.State.{Leds, DeviceState, GlobalState, key_released, key_pressed, same_leds}
use blesk_os.HumanInput.Events.{add_event, event_key_pressed, event_key_released}
use blesk_os.HumanInput.Group.{Slot, Hid, put_state, timestamp}

-- The byte for the lights of a keyboard.
unfoldable pub leds_payload : Leds → ℕ
leds_payload leds =
    let payload : ℕ = 0 in
    let payload : ℕ = if not (leds.scrollock == 0) then bit_or payload 0x01 else payload in
    let payload : ℕ = if not (leds.numlock == 0) then bit_or payload 0x02 else payload in
    if not (leds.capslock == 0) then bit_or payload 0x04 else payload

-- The group, and the payloads of the commands 0xED that were sent, each with its keyboard, the last
-- one first.
pub record Watch : Type 0 where
  pub hid : Hid
  pub sent : List (ℕ × ℕ)

-- `ps2_keyboard_set_leds`.
unfoldable pub set_leds : ℕ → Leds → Watch → Watch
set_leds d leds x = record {
  hid = record (x.hid) {
    state_of = put_state x.hid.state_of d (record (x.hid.state_of d) { leds = leds });
  };
  sent = (d, leds_payload leds) ∷ x.sent;
}

-- One round of the loop over the devices.
unfoldable pub lights_step : ℕ → Watch → Watch
unfolding set_leds
lights_step i x =
    let slot = x.hid.slots i in
    if not slot.sets_leds
    then x
    else if not (same_leds x.hid.global.leds (x.hid.state_of slot.device).leds)
    then set_leds slot.device x.hid.global.leds x
    else x

unfoldable pub lights_loop : ℕ → ℕ → Watch → Watch
lights_loop zero i x = x
lights_loop (suc n) i x = lights_loop n (i + 1) (lights_step i x)

abbrev pub microseconds_to_repeat_key_first_time : ℕ
microseconds_to_repeat_key_first_time = 300000

abbrev pub microseconds_to_repeat_key_next_time : ℕ
microseconds_to_repeat_key_next_time = 50000

-- The last pressed key is forgotten.
abbrev pub forget_last_key : Hid → Hid
forget_last_key w = record w {
  global = record (w.global) { last_pressed_key = 0; last_pressed_key_event_count = 0 };
}

-- The event of a key in state `key_state` for which `diff` repeats are due.
unfoldable pub repeat_event : ℕ → ℕ → ℕ → Hid → Hid
repeat_event key key_state diff w =
    if ltb w.global.last_pressed_key_event_count diff
    then (let g = record (w.global) { last_pressed_key_event_count = diff } in
        record w {
          global = g;
          events =
              add_event g
                (if key_state == key_pressed then event_key_pressed else event_key_released) key
                w.events;
        })
    else w

-- The repeat of the last pressed key.
unfoldable pub repeat_key : Hid → Hid
unfolding repeat_event
repeat_key w =
    let key = w.global.last_pressed_key in
    let key_state = get_or w.global.key_state key 0 in
    let diff = sub32 (timestamp w) (get_or w.global.key_state_timestamp key 0) in
    let w1 = record w { readings = w.readings + 1 } in
    if key == 0
    then w
    else if key_state == key_released
    then forget_last_key w
    else if ltb diff microseconds_to_repeat_key_first_time
    then w1
    else let w2 =
        repeat_event key key_state
          ((diff - microseconds_to_repeat_key_first_time) / microseconds_to_repeat_key_next_time)
          w1 in
      if get_or w2.global.key_state key 0 == key_released then forget_last_key w2 else w2

-- One round of `check_human_input_state`.
unfoldable pub check_round : Watch → Watch
check_round x =
    let x' = lights_loop x.hid.number_of_devices 0 x in record x' { hid = repeat_key x'.hid }

-- `is_key_pressed`.
unfoldable pub is_key_pressed : ℕ → GlobalState → ℕ
is_key_pressed key g = as_int (get_or g.key_state key 0 == key_pressed)
