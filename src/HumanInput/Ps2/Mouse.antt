-- ===== src/HumanInput/Ps2/Mouse.antt =====
-- `ps2_mouse_receive` of kernel/hardware/devices/human_input/ps2_mouse.c: bytes are collected into
-- packets, and a packet becomes buttons and movements.
pub mod Movement
pub mod Packets
use blesk_os.Common.{
  ℕ, ◌+◌, ◌-◌, ◌*◌, ◌/◌, ◌^◌, bit_and, bit_or, Bool, true, false, not, ◌||◌, List, [], ◌∷◌, ◌==◌,
  ltb, get_or, set, if◌then◌else◌,
}
use blesk_os.HumanInput.State.{DeviceState}
use blesk_os.HumanInput.Group.{
  reset_state_before_new_events, local_event_button, local_event_movement,
}

abbrev pub mouse_default : ℕ
mouse_default = 0

abbrev pub wheel_activated : ℕ
wheel_activated = 1

abbrev pub extra_buttons_activated : ℕ
extra_buttons_activated = 2

-- The parser's part of `ps2_mouse_data_t`.
pub record Mouse : Type 0 where
  pub status : ℕ
  pub bytes_per_packet : ℕ
  pub packet_ptr : ℕ
  pub packet : List ℕ

-- The locals that a packet is decoded into.
pub record Decoded : Type 0 where
  pub left_button : ℕ
  pub right_button : ℕ
  pub middle_button : ℕ
  pub button_4 : ℕ
  pub button_5 : ℕ
  pub x_movement : ℕ
  pub y_movement : ℕ
  pub wheel_vertical_movement : ℕ
  pub wheel_horizontal_movement : ℕ

-- `0xFFFFFF00`.
abbrev pub high_ones : ℕ
high_ones = 0xFFFFFF00

-- `x_movement` from the first two bytes.
unfoldable pub decode_x : ℕ → ℕ → ℕ
decode_x b0 b1 = if bit_and b0 0x10 == 0x10 then bit_or b1 high_ones else b1

-- `y_movement` from the first and the third byte; `-1 * b` as a 32-bit word.
unfoldable pub decode_y : ℕ → ℕ → ℕ
decode_y b0 b2 =
    if b2 == 0
    then 0
    else let y = bit_and (2 ^ 32 - b2) 0xFF in
      if bit_and b0 0x20 == 0x00 then bit_or y high_ones else y

-- `wheel_vertical_movement` of a mouse with a wheel.
unfoldable pub decode_wheel : ℕ → ℕ
decode_wheel b3 = if b3 == 0 then 0 else if bit_and b3 0x80 == 0x80 then bit_or b3 high_ones else b3

-- The two wheels of a mouse with extra buttons: the `switch` on the low four bits.
unfoldable pub extra_vertical : ℕ → ℕ
extra_vertical low = if low == 0x01 then 0x00000001 else if low == 0x0F then 0xFFFFFFFF else 0

unfoldable pub extra_horizontal : ℕ → ℕ
extra_horizontal low = if low == 0x02 then 0x00000001 else if low == 0x0E then 0xFFFFFFFF else 0

-- The decoding of a whole packet.
unfoldable pub decode_packet : ℕ → List ℕ → Decoded
unfolding decode_x decode_y decode_wheel extra_vertical extra_horizontal
decode_packet status packet =
    let b0 = get_or packet 0 0 in
    let b3 = get_or packet 3 0 in
    let wheel = status == wheel_activated in
    let extra = status == extra_buttons_activated in
    record {
      left_button = bit_and b0 0x01;
      right_button = bit_and (b0 / 2) 0x01;
      middle_button = bit_and (b0 / 4) 0x01;
      button_4 = if extra then bit_and (b3 / 16) 0x01 else 0;
      button_5 = if extra then bit_and (b3 / 32) 0x01 else 0;
      x_movement = decode_x b0 (get_or packet 1 0);
      y_movement = decode_y b0 (get_or packet 2 0);
      wheel_vertical_movement =
          if wheel then decode_wheel b3 else if extra then extra_vertical (bit_and b3 0x0F) else 0;
      wheel_horizontal_movement = if extra then extra_horizontal (bit_and b3 0x0F) else 0;
    }

-- What a decoded packet does to the state of the mouse.
unfoldable pub apply_packet : Decoded → DeviceState → DeviceState
unfolding reset_state_before_new_events local_event_button local_event_movement
apply_packet p s =
    let buttons = local_event_button 5 p.button_5 (
      local_event_button 4 p.button_4 (
        local_event_button 3 p.right_button (
          local_event_button 2 p.middle_button
            (local_event_button 1 p.left_button (reset_state_before_new_events s))))) in
    if not (p.x_movement == 0)
      || (not (p.y_movement == 0)
          || (not (p.wheel_vertical_movement == 0) || not (p.wheel_horizontal_movement == 0)))
    then local_event_movement 4 p.wheel_horizontal_movement (
        local_event_movement 3 p.wheel_vertical_movement
          (local_event_movement 2 p.y_movement (local_event_movement 1 p.x_movement buttons)))
    else buttons

-- The loop over the bytes. `process` is what the rest of the kernel does with a packet.
module _ {W : Type 0} (process : W → Decoded → W) where
  -- One byte.
  unfoldable pub receive_byte : Mouse → W → ℕ → Mouse × W
  receive_byte m w b =
      let packet = set m.packet m.packet_ptr b in
      let ptr = m.packet_ptr + 1 in
      if ltb ptr m.bytes_per_packet
      then (record m { packet = packet; packet_ptr = ptr }, w)
      else let full = record m { packet = packet; packet_ptr = 0 } in
        if not (bit_and (get_or packet 0 0) 0xC0 == 0x00)
        then (full, w)
        else (full, process w (decode_packet m.status packet))

  unfoldable pub receive : Mouse → W → List ℕ → Mouse × W
  unfolding receive_byte
  receive m w [] = (m, w)
  receive m w (b ∷ bytes) = let (m', w') = receive_byte m w b in receive m' w' bytes
