-- ===== src/Libc/Strtol/Value.antt =====
-- What `strtol` reads.
use blesk_os.Common.{
  ℕ, suc, ◌+◌, ◌-◌, ◌/◌, ◌%◌, ◌^◌, ◌≤◌, ◌<◌, ◌≡◌, refl, sym, ap, ◌∙◌, ◌⊎◌, inl, inr, Bool, true,
  false, some, List, [], ◌∷◌, ◌++◌, length, All, ◌==◌, leb, if◌then◌else◌, arith, sub32,
}
use blesk_os.Libc.Ctype.{isspace, isdigit, isalpha}
use blesk_os.Libc.Strtol.{nothing, digits, strtol_end, strtol_number, strtol_base, strtol}
use blesk_os.Libc.Strtol.Digits.{digit_value, is_digit, number, digits_step, strtol_digits-Read}

-- The value of a number with a sign, as far as a `long` can show it.
abbrev pub signed_value : Bool → ℕ → ℕ
signed_value neg n =
    if neg
    then (if leb n (2 ^ 31) then sub32 0 n else 2 ^ 31)
    else if leb n (2 ^ 31 - 1)
    then n
    else 2 ^ 31 - 1

strtol_number-value :
    (neg : Bool) (base count c : ℕ) (s : List ℕ) (e : ℕ) (rest : List ℕ)
    → 0 < base
    → base < 2 ^ 31
    → All (λ c. is_digit base c ≡ true) (c ∷ s)
    → is_digit base e ≡ false
    → strtol_number neg base count (c ∷ s ++ e ∷ rest)
      ≡ some (signed_value neg (number base 0 (c ∷ s)), count + length (c ∷ s))
unfolding strtol_number strtol_end
strtol_number-value neg base count c s e rest w signed all stop =
    let bound = if neg then 2 ^ 31 else 2 ^ 31 - 1 in
    let small : bound < 2 ^ 32 = ground arith in
    let q = bound / base in
    let m = bound % base in
    let first =
      (digits_step base q m signed 0 nothing count c (s ++ e ∷ rest) all.0).1
      ∙ sym (digits_step base q m signed 0 digits count c (s ++ e ∷ rest) all.0).1 in
    elim (strtol_digits-Read bound base 0 count (c ∷ s) e rest w signed small (omega arith) all
      stop) [
        | inl (high, (kept, is)) ↦
            rw (strtol_number, first ∙ is)
              (ap (λ n. some (n, count + length (c ∷ s))) (ground (arith, high)))
        | inr (within, is) ↦
            rw (strtol_number, first ∙ is)
              (ap (λ n. some (n, count + length (c ∷ s))) (ground (arith, within)))
      ]

-- A sign in front of a number.
pub data Sign : Type 0 where
  plain : Sign
  plus : Sign
  minus : Sign

abbrev pub sign_text : Sign → List ℕ
sign_text plain = []
sign_text plus = b'+' ∷ []
sign_text minus = b'-' ∷ []

abbrev pub is_minus : Sign → Bool
is_minus plain = false
is_minus plus = false
is_minus minus = true

-- A digit or a letter is neither blank nor a sign.
first_apart :
    (c : ℕ)
    → (isdigit c ≡ true) ⊎ (isalpha c ≡ true)
    → (isspace c ≡ false) × ((c == b'-') ≡ false) × ((c == b'+') ≡ false)
unfolding isspace isdigit isalpha
first_apart c one = (ground (arith, one), ground (arith, one), ground (arith, one))

digit-kind : (base c : ℕ) → is_digit base c ≡ true → (isdigit c ≡ true) ⊎ (isalpha c ≡ true)
unfolding digit_value isdigit isalpha
digit-kind base c digit = ground (arith, digit)

-- In a base that has no prefix the number starts at once.
no_prefix :
    (neg : Bool) (base count c : ℕ) (s : List ℕ)
    → (base == 0) ≡ false
    → (base == 16) ≡ false
    → strtol_base neg base count (c ∷ s) ≡ strtol_number neg base count (c ∷ s)
unfolding strtol_base
no_prefix neg base count c [] given plain_base = rw (strtol_base, given, plain_base) refl
no_prefix neg base count c (x ∷ s) given plain_base = rw (strtol_base, given, plain_base) refl

-- A space, or one of the characters from the tab to the carriage return.
abbrev pub IsBlank : ℕ → Type 0
IsBlank c = (c ≡ b' ') ⊎ ((9 ≤ c) × (c ≤ 13))

blank-space : (c : ℕ) → IsBlank c → isspace c ≡ true
unfolding isspace
blank-space c h = ground (arith, h)

-- In a base below 2^31 other than 0 and 16, from a text with blanks, a sign or none, and at least one digit, up to a
-- character that is no digit: the value of the number with its sign, or the nearest one that there is,
-- and the place behind the last digit.
pub strtol-value :
    (base : ℕ) (blanks : List ℕ) (sign : Sign) (c : ℕ) (s : List ℕ) (e : ℕ) (rest : List ℕ)
    (count : ℕ)
    → (base == 0) ≡ false
    → (base == 16) ≡ false
    → base < 2 ^ 31
    → All IsBlank blanks
    → All (λ c. is_digit base c ≡ true) (c ∷ s)
    → is_digit base e ≡ false
    → strtol base count (blanks ++ sign_text sign ++ c ∷ s ++ e ∷ rest)
      ≡ some (
        signed_value (is_minus sign) (number base 0 (c ∷ s)),
        count + (length blanks + (length (sign_text sign) + length (c ∷ s))),
      )
unfolding strtol strtol_base isspace
strtol-value base [] plain c s e rest count given plain_base signed blank all stop =
    let d = first_apart c (digit-kind base c all.0) in
    rw (strtol, d.0, d.1, d.2)
      (no_prefix false base count c (s ++ e ∷ rest) given plain_base
        ∙ strtol_number-value false base count c s e rest (ground arith) signed all stop
        ∙ ap (λ n. some (signed_value false (number base 0 (c ∷ s)), n)) (omega arith))
strtol-value base [] plus c s e rest count given plain_base signed blank all stop =
    no_prefix false base (suc count) c (s ++ e ∷ rest) given plain_base
    ∙ strtol_number-value false base (suc count) c s e rest (ground arith) signed all stop
    ∙ ap (λ n. some (signed_value false (number base 0 (c ∷ s)), n)) (omega arith)
strtol-value base [] minus c s e rest count given plain_base signed blank all stop =
    no_prefix true base (suc count) c (s ++ e ∷ rest) given plain_base
    ∙ strtol_number-value true base (suc count) c s e rest (ground arith) signed all stop
    ∙ ap (λ n. some (signed_value true (number base 0 (c ∷ s)), n)) (omega arith)
strtol-value base (b ∷ blanks) sign c s e rest count given plain_base signed blank all stop =
    rw (strtol, blank-space b blank.0)
      (strtol-value base blanks sign c s e rest (suc count) given plain_base signed blank.1 all stop
        ∙ ap (λ n. some (signed_value (is_minus sign) (number base 0 (c ∷ s)), n)) (omega arith))
