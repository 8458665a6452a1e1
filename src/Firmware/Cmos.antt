-- ===== src/Firmware/Cmos.antt =====
-- The time in the CMOS: kernel/firmware/cmos/cmos.c. The registers, which are read through ports, are a
-- function of their numbers.
pub mod Times
use blesk_os.Common.{ℕ, ◌+◌, ◌*◌, ◌/◌, ◌%◌, ◌^◌, bit_and, ◌==◌, ltb, if◌then◌else◌, add32}

-- `datetime_t`.
pub record DateTime : Type 0 where
  pub year : ℕ
  pub month : ℕ
  pub weekday : ℕ
  pub day : ℕ
  pub hour : ℕ
  pub minute : ℕ
  pub second : ℕ

-- `cmos_time_format_24_hours` and `cmos_time_format_binary`.
pub record TimeFormat : Type 0 where
  pub hours_24 : ℕ
  pub binary : ℕ

-- `read_cmos`, up to the log: the format is in the status register B.
abbrev pub read_format : (ℕ → ℕ) → TimeFormat
read_format reg = record { hours_24 = bit_and (reg 0x0B / 2) 1; binary = bit_and (reg 0x0B / 4) 1 }

-- `CONVERT_BCD_TO_DECIMAL`, stored in a `uint8_t`.
abbrev pub convert_bcd_to_decimal : ℕ → ℕ
convert_bcd_to_decimal x = (bit_and x 0xF + x / 16 * 10) % 2 ^ 8

-- `cmos_read_time_register`.
abbrev pub cmos_read_time_register : TimeFormat → (ℕ → ℕ) → ℕ → ℕ
cmos_read_time_register format reg r =
    if format.binary == 1 then reg r else convert_bcd_to_decimal (reg r)

-- The hour when the CMOS counts to twelve.
abbrev pub read_hour_12 : TimeFormat → ℕ → ℕ
read_hour_12 format value =
    let stored = bit_and value 0x7F in
    let hour = if format.binary == 0 then convert_bcd_to_decimal stored else stored in
    if bit_and value 0x80 == 0x80 then (if hour == 12 then 0 else (hour + 12) % 2 ^ 8) else hour

-- `read_time`.
unfoldable pub read_time : TimeFormat → (ℕ → ℕ) → DateTime
read_time format reg =
    let read = cmos_read_time_register format reg in
    record {
      year = if ltb (read 0x09) 80 then add32 (read 0x09) 2000 else add32 (read 0x09) 1900;
      month = read 0x08;
      weekday = read 0x06;
      day = read 0x07;
      hour = if format.hours_24 == 1 then read 0x04 else read_hour_12 format (reg 0x04);
      minute = read 0x02;
      second = read 0x00;
    }
