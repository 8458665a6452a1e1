-- ===== src/Libc/Tests.antt =====
-- Concrete inputs for the C library.
use blesk_os.Common.{
  arith, true, ℕ, ◌+◌, ◌-◌, ◌^◌, ◌≤◌, ◌≡◌, refl, none, some, inl, List, [], ◌∷◌, length, All,
}
use blesk_os.Libc.Strtol.{strtol}
use blesk_os.Libc.Strtol.Digits.{digit_value, number}
use blesk_os.Libc.Strtol.Value.{minus, signed_value, strtol-value}
use blesk_os.Libc.Text.{strncmp, strncpy, strchr, strstr}
use blesk_os.Libc.Text.Compare.{IsChar, stored}
use blesk_os.Libc.Text.Find.{strstr-first_place}
use blesk_os.Libc.Number.{itoa, itoa_store, itoa_digits, written_first, atoi}
use blesk_os.Libc.Number.Decimal.{atoi-itoa}

abbrev hay : List ℕ
hay = b'a' ∷ b'b' ∷ b'a' ∷ b'c' ∷ []

abbrev needle : List ℕ
needle = b'a' ∷ b'c' ∷ []

hay-IsChar : All IsChar hay
hay-IsChar = (
  (omega arith, omega arith),
  ((omega arith, omega arith), ((omega arith, omega arith), ((omega arith, omega arith), tt))),
)

needle-IsChar : All IsChar needle
needle-IsChar = ((omega arith, omega arith), ((omega arith, omega arith), tt))

-- The comparison looks at no byte behind the limit.
strncmp_prefix : strncmp (b'a' ∷ b'b' ∷ []) (b'a' ∷ b'c' ∷ []) 1 ≡ some 0
unfolding strncmp
strncmp_prefix = refl

-- A text of `n` characters or more is cut, and has no zero then.
strncpy_cut : strncpy (1 ∷ 2 ∷ 3 ∷ []) (stored needle []) 2 ≡ some (b'a' ∷ b'c' ∷ 3 ∷ [])
unfolding strncpy
strncpy_cut = refl

-- A byte above 127 is a negative `char`.
strchr_negative : strchr (b'a' ∷ 0xFF ∷ 0 ∷ []) 0xFF ≡ some none
unfolding strchr
strchr_negative = refl

strstr-first_place_example : strstr (stored hay []) (stored needle []) ≡ some (some 2)
strstr-first_place_example = strstr-first_place hay needle [] [] hay-IsChar needle-IsChar

atoi-itoa_example :
    (text : List ℕ) × (itoa (2 ^ 32 - 42) 12 ≡ some text)
    × (length text ≤ 12)
    × (atoi text ≡ some (2 ^ 32 - 42))
atoi-itoa_example =
    atoi-itoa (2 ^ 32 - 42) 12 (omega arith) (omega arith) (omega arith) (omega arith)

-- A buffer of 11 characters has no place for the sign of a number of ten digits.
itoa_cut :
    itoa (2 ^ 32 - 1234567890) 11
    ≡ some (b'1' ∷ b'2' ∷ b'3' ∷ b'4' ∷ b'5' ∷ b'6' ∷ b'7' ∷ b'8' ∷ b'9' ∷ b'0' ∷ 0 ∷ [])
unfolding itoa itoa_store itoa_digits written_first
itoa_cut = refl

-- Two blanks, "-42" and a comma.
strtol-value_example :
    strtol 10 0 (32 ∷ 32 ∷ b'-' ∷ b'4' ∷ b'2' ∷ b',' ∷ 0 ∷ [])
    ≡ some (signed_value true (number 10 0 (b'4' ∷ b'2' ∷ [])), 0 + (2 + (1 + 2)))
unfolding digit_value
strtol-value_example =
    strtol-value 10 (32 ∷ 32 ∷ []) minus b'4' (b'2' ∷ []) b',' (0 ∷ []) 0 refl refl (omega arith)
      (inl refl, (inl refl, tt)) (refl, (refl, tt)) refl
