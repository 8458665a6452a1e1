-- ===== src/Libc/Strtol.antt =====
-- `strtol` of kernel/libc/stdlib.c, with the 32 bits of a `long` of the processor.
pub mod Digits
pub mod Value
use blesk_os.Common.{
  ℕ, zero, suc, ◌+◌, ◌-◌, ◌*◌, ◌/◌, ◌%◌, ◌^◌, Bool, true, false, ◌&&◌, ◌||◌, Option, none, some,
  List, [], ◌∷◌, ◌==◌, ltb, leb, if◌then◌else◌, add32, sub32, mul32,
}
use blesk_os.Libc.Ctype.{isspace, isdigit, isalpha, tolower}

-- The digit of a character.
unfoldable pub digit_of : ℕ → Option ℕ
digit_of c =
    if isdigit c then some (c - b'0') else if isalpha c then some (tolower c - b'a' + 10) else none

-- `any`: no digit, digits, or too many of them.
pub data Seen : Type 0 where
  nothing : Seen
  digits : Seen
  overflow : Seen

-- A round of the loop for a digit below the base.
abbrev pub add_digit : ℕ → ℕ → ℕ → ℕ → ℕ → Seen → ℕ × Seen
add_digit base cutoff cutlim d acc overflow = (acc, overflow)
add_digit base cutoff cutlim d acc nothing =
    if ltb cutoff acc || ((acc == cutoff) && ltb cutlim d)
    then (acc, overflow)
    else (add32 (mul32 acc base) d, digits)
add_digit base cutoff cutlim d acc digits =
    if ltb cutoff acc || ((acc == cutoff) && ltb cutlim d)
    then (acc, overflow)
    else (add32 (mul32 acc base) d, digits)

-- The loop over the digits; `count` characters were read before. `none` is a read outside of the text.
-- `c >= base` compares with an `int`, and a base from 2^31 on is a negative one.
unfoldable pub strtol_digits : ℕ → ℕ → ℕ → ℕ → Seen → ℕ → List ℕ → Option (ℕ × Seen × ℕ)
strtol_digits base cutoff cutlim acc any count [] = none
strtol_digits base cutoff cutlim acc any count (c ∷ s) = elim (digit_of c) [
  | none ↦ some (acc, any, count)
  | some d ↦
      let next = add_digit base cutoff cutlim d acc any in
      let rest = strtol_digits base cutoff cutlim next.0 next.1 (suc count) s in
      if leb (2 ^ 31) base || leb base d then some (acc, any, count) else rest
]

-- What the value and the end of the number come to.
unfoldable pub strtol_end : Bool → ℕ × Seen × ℕ → ℕ × ℕ
strtol_end neg (acc, nothing, count) = (if neg then sub32 0 acc else acc, 0)
strtol_end neg (acc, digits, count) = (if neg then sub32 0 acc else acc, count)
strtol_end neg (acc, overflow, count) = (if neg then 2 ^ 31 else 2 ^ 31 - 1, count)

-- From the first digit on, with the base known.
unfoldable pub strtol_number : Bool → ℕ → ℕ → List ℕ → Option (ℕ × ℕ)
strtol_number neg base count s =
    let cutoff = if neg then 2 ^ 31 else 2 ^ 31 - 1 in
    elim (strtol_digits base (cutoff / base) (cutoff % base) 0 nothing count s) [
      | none ↦ none
      | some r ↦ some (strtol_end neg r)
    ]

-- From behind the sign on: the prefix of a hexadecimal number, and the base.
unfoldable pub strtol_base : Bool → ℕ → ℕ → List ℕ → Option (ℕ × ℕ)
strtol_base neg base count [] = none
strtol_base neg base count (c ∷ []) =
    if ((base == 0) || (base == 16)) && (c == b'0')
    then none
    else strtol_number neg (if base == 0 then (if c == b'0' then 8 else 10) else base) count
        (c ∷ [])
strtol_base neg base count (c ∷ x ∷ s) =
    if ((base == 0) || (base == 16)) && ((c == b'0') && ((x == b'x') || (x == b'X')))
    then strtol_number neg 16 (count + 2) s
    else strtol_number neg (if base == 0 then (if c == b'0' then 8 else 10) else base) count
        (c ∷ x ∷ s)

-- `strtol`: the value, and how far behind `nptr` the number ends; `none` is a read outside of the text.
unfoldable pub strtol : ℕ → ℕ → List ℕ → Option (ℕ × ℕ)
strtol base count [] = none
strtol base count (c ∷ s) =
    let blank = strtol base (suc count) s in
    if isspace c
    then blank
    else if c == b'-'
    then strtol_base true base (suc count) s
    else if c == b'+'
    then strtol_base false base (suc count) s
    else strtol_base false base count (c ∷ s)
