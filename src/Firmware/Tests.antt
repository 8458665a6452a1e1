-- ===== src/Firmware/Tests.antt =====
-- A concrete time, on which the theorem about the CMOS is applied.
use blesk_os.Common.{◌≡◌, refl, inl, arith}
use blesk_os.Firmware.Cmos.{DateTime, TimeFormat, read_time}
use blesk_os.Firmware.Cmos.Times.{registers, read_as, read_time-registers}

abbrev noon : DateTime
noon = record {
  year = 2026;
  month = 11;
  weekday = 5;
  day = 26;
  hour = 12;
  minute = 30;
  second = 59;
}

abbrev digits_12 : TimeFormat
digits_12 = record { hours_24 = 0; binary = 0 }

read_time-registers_example :
    read_time digits_12 (registers digits_12 noon) ≡ record noon { hour = read_as digits_12 12 }
read_time-registers_example =
    read_time-registers digits_12 noon (record { hours_24 = inl refl; binary = inl refl })
      (record {
        year = (omega arith, omega arith);
        month = omega arith;
        weekday = omega arith;
        day = omega arith;
        hour = omega arith;
        minute = omega arith;
        second = omega arith;
      })
