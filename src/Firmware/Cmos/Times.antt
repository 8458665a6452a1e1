-- ===== src/Firmware/Cmos/Times.antt =====
-- The times that are read from a CMOS that keeps a time in one of its formats.
use blesk_os.Common.{
  ℕ, ◌+◌, ◌*◌, ◌/◌, ◌%◌, ◌≤◌, ◌<◌, ◌≡◌, refl, true, ◌==◌, ltb, if◌then◌else◌, arith, bit_and_mask,
  Bool-cases, inl, inr, passes_below, passes_below-at, ==_iff, ◌⊎◌, add32,
}
use blesk_os.Firmware.Cmos.{DateTime, TimeFormat, convert_bcd_to_decimal, read_hour_12, read_time}

-- A time that the registers can keep, in the years that the kernel tells apart.
pub record IsTime (t : DateTime) : Type 0 where
  pub year : (1980 ≤ t.year) × (t.year < 2080)
  pub month : t.month < 13
  pub weekday : t.weekday < 8
  pub day : t.day < 32
  pub hour : t.hour < 24
  pub minute : t.minute < 60
  pub second : t.second < 60

-- The two formats of a number.
pub record IsFormat (f : TimeFormat) : Type 0 where
  pub hours_24 : (f.hours_24 ≡ 0) ⊎ (f.hours_24 ≡ 1)
  pub binary : (f.binary ≡ 0) ⊎ (f.binary ≡ 1)

-- A number below a hundred as the CMOS keeps it: binary, or its digits in four bits each.
abbrev pub kept : TimeFormat → ℕ → ℕ
kept f n = if f.binary == 1 then n else n / 10 * 16 + n % 10

-- An hour as the CMOS keeps it: in the format to twelve it goes from 12 to 11, twice, and the highest
-- bit marks the second half of the day.
abbrev pub kept_hour : TimeFormat → ℕ → ℕ
kept_hour f n =
    if f.hours_24 == 1
    then kept f n
    else kept f (if n % 12 == 0 then 12 else n % 12) + (if ltb n 12 then 0 else 0x80)

-- The registers of a CMOS that keeps a time.
abbrev pub registers : TimeFormat → DateTime → ℕ → ℕ
registers f t r =
    if r == 0x00
    then kept f t.second
    else if r == 0x02
    then kept f t.minute
    else if r == 0x04
    then kept_hour f t.hour
    else if r == 0x06
    then kept f t.weekday
    else if r == 0x07
    then kept f t.day
    else if r == 0x08
    then kept f t.month
    else kept f (t.year % 100)

-- What the kernel reads for an hour: in the format to twelve it takes noon for midnight and midnight
-- for noon.
abbrev pub read_as : TimeFormat → ℕ → ℕ
read_as f hour =
    if f.hours_24 == 1 then hour else if hour == 0 then 12 else if hour == 12 then 0 else hour

bcd-kept : (n : ℕ) → n < 100 → convert_bcd_to_decimal (n / 10 * 16 + n % 10) ≡ n
bcd-kept n small = omega (arith, bit_and_mask 4 (n / 10 * 16 + n % 10))

register-kept :
    (f : TimeFormat) (n : ℕ)
    → n < 100
    → (if f.binary == 1 then kept f n else convert_bcd_to_decimal (kept f n)) ≡ n
register-kept f n small = elim (Bool-cases (f.binary == 1)) [
  | inl plain ↦ rw plain refl
  | inr digits ↦ rw digits (bcd-kept n small)
]

-- The hours to twelve, one by one.
binary_hours :
    passes_below
      (λ n.
        read_hour_12
          (record { hours_24 = 0; binary = 1 })
          (kept_hour (record { hours_24 = 0; binary = 1 }) n)
        == (if n == 0 then 12 else if n == 12 then 0 else n))
      24
    ≡ true
unfolding passes_below
binary_hours = refl

digit_hours :
    passes_below
      (λ n.
        read_hour_12
          (record { hours_24 = 0; binary = 0 })
          (kept_hour (record { hours_24 = 0; binary = 0 }) n)
        == (if n == 0 then 12 else if n == 12 then 0 else n))
      24
    ≡ true
unfolding passes_below
digit_hours = refl

hour-kept :
    (f : TimeFormat) (n : ℕ)
    → IsFormat f
    → n < 24
    → (if f.hours_24 == 1
        then (if f.binary == 1 then kept_hour f n else convert_bcd_to_decimal (kept_hour f n))
        else read_hour_12 f (kept_hour f n))
      ≡ read_as f n
hour-kept f n v small = elim v.hours_24 [
  | inr whole ↦ rw whole (register-kept f n (omega arith))
  | inl half ↦ elim v.binary [
    | inr plain ↦ rw (half, plain) ((==_iff _ _).0 (passes_below-at _ 24 n small binary_hours))
    | inl digits ↦ rw (half, digits) ((==_iff _ _).0 (passes_below-at _ 24 n small digit_hours))
  ]
]

-- From a CMOS that keeps a time of the years 1980 to 2079, in any of its formats, the kernel reads that
-- time, but for noon and midnight in the format to twelve, which are exchanged.
pub read_time-registers :
    (f : TimeFormat) (t : DateTime)
    → IsFormat f
    → IsTime t
    → read_time f (registers f t) ≡ record t { hour = read_as f t.hour }
unfolding read_time
read_time-registers f t v w =
    let year = register-kept f (t.year % 100) (omega arith) in
    let real : (if ltb (t.year % 100) 80
          then add32 (t.year % 100) 2000
          else add32 (t.year % 100) 1900)
        ≡ t.year =
      ground (arith, w.year) in
    rw
      (
        year,
        real,
        register-kept f t.month (omega (arith, w.month)),
        register-kept f t.weekday (omega (arith, w.weekday)),
        register-kept f t.day (omega (arith, w.day)),
        hour-kept f t.hour v w.hour,
        register-kept f t.minute (omega (arith, w.minute)),
        register-kept f t.second (omega (arith, w.second)),
      )
      refl
