-- ===== src/Libc/Strtol/Digits.antt =====
-- The loop of `strtol` over the digits.
use blesk_os.Common.{
  ℕ, suc, ◌+◌, ◌*◌, ◌/◌, ◌%◌, ◌^◌, ◌≤◌, ◌<◌, ◌≡◌, refl, ap, ◌∙◌, ◌⊎◌, inl, inr, Bool, true, false,
  Option, none, some, List, [], ◌∷◌, ◌++◌, length, All, ◌==◌, ◌||◌, ◌&&◌, ltb, leb, if◌then◌else◌,
  ◌-◌, arith, Bool-cases, add32, mul32, Option-cases, ltb→lt, ltb→ge,
}
use native.Mathlib.Nat.{div-add-mod, mod-lt, mul-le-mul_right}
use blesk_os.Libc.Ctype.{isdigit, isalpha, tolower, isupper}
use blesk_os.Libc.Strtol.{digit_of, Seen, digits, overflow, add_digit, strtol_digits}

-- The value of a character as a digit: 0 to 9, and 10 to 35 for the letters of either case.
unfoldable pub digit_value : ℕ → Option ℕ
digit_value c =
    if leb b'0' c && leb c b'9'
    then some (c - b'0')
    else if leb b'a' c && leb c b'z'
    then some (10 + (c - b'a'))
    else if leb b'A' c && leb c b'Z'
    then some (10 + (c - b'A'))
    else none

digit_of-digit_value : (c : ℕ) → digit_of c ≡ digit_value c
unfolding digit_of digit_value isdigit isalpha tolower isupper
digit_of-digit_value c = ground arith

-- The character is a digit in the base; otherwise it ends a number.
abbrev pub is_digit : ℕ → ℕ → Bool
is_digit base c = elim (digit_value c) [ none ↦ false | some d ↦ ltb d base ]

abbrev pub digit_or : ℕ → ℕ
digit_or c = elim (digit_value c) [ none ↦ 0 | some d ↦ d ]

-- The number that digits stand for, behind one that was read before.
abbrev pub number : ℕ → ℕ → List ℕ → ℕ
number base acc [] = acc
number base acc (c ∷ s) = number base (acc * base + digit_or c) s

number_more : (base acc : ℕ) (s : List ℕ) → 0 < base → acc ≤ number base acc s
number_more base acc [] w = omega arith
number_more base acc (c ∷ s) w =
    let up : acc ≤ acc * base + digit_or c = grind arith in
    omega (arith, up, number_more base (acc * base + digit_or c) s w)

-- The test of the loop: one more digit would go over the bound.
cutoff_test :
    (bound base acc d : ℕ)
    → 0 < base
    → d < base
    → (ltb (bound / base) acc || ((acc == bound / base) && ltb (bound % base) d))
      ≡ ltb bound (acc * base + d)
cutoff_test bound base acc d w lt =
    let q = bound / base in
    let whole = div-add-mod bound base in
    let rest = mod-lt bound w in
    elim (Bool-cases (ltb q acc)) [
      | inl above ↦
          let up = mul-le-mul_right {m = suc q} {n = acc} base (ltb→lt _ _ above) in
          rw above (ground (arith, up, whole, rest))
      | inr below ↦ elim (Bool-cases (acc == q)) [
        | inl same ↦ let e : acc ≡ q = ground arith in rw (below, same, e) (ground (arith, whole))
        | inr less ↦
            let down = mul-le-mul_right {m = suc acc} {n = q} base (ground arith) in
            rw (below, less) (ground (arith, down, whole, rest))
      ]
    ]

-- The base is a positive `int`.
module _ (base cutoff cutlim : ℕ) (signed : base < 2 ^ 31) where
  -- The loop ends at a character that is no digit.
  digits_stop :
      (acc : ℕ) (any : Seen) (count e : ℕ) (rest : List ℕ)
      → is_digit base e ≡ false
      → strtol_digits base cutoff cutlim acc any count (e ∷ rest) ≡ some (acc, any, count)
  unfolding strtol_digits
  digits_stop acc any count e rest stop = elim (Option-cases (digit_value e)) [
    | inl other ↦ rw (strtol_digits, digit_of-digit_value e, other) refl
    | inr (d, is) ↦
        let high : (leb (2 ^ 31) base || leb base d) ≡ true =
          ground (arith, rw (is_digit, is) at stop) in
        rw (strtol_digits, digit_of-digit_value e, is, high) refl
  ]

  -- A digit is taken in.
  pub digits_step :
      (acc : ℕ) (any : Seen) (count c : ℕ) (s : List ℕ)
      → is_digit base c ≡ true
      → (digit_or c < base)
        × (let next = add_digit base cutoff cutlim (digit_or c) acc any in
            strtol_digits base cutoff cutlim acc any count (c ∷ s)
            ≡ strtol_digits base cutoff cutlim next.0 next.1 (suc count) s)
  unfolding strtol_digits
  digits_step acc any count c s digit = elim (Option-cases (digit_value c)) [
    | inl other ↦ absurd (ground (arith, rw (is_digit, other) at digit))
    | inr (d, is) ↦
        let low : d < base = ground (arith, rw (is_digit, is) at digit) in
        let test : (leb (2 ^ 31) base || leb base d) ≡ false = ground arith in
        (rw (digit_or, is) low, rw (strtol_digits, digit_or, digit_of-digit_value c, is, test) refl)
  ]

  overflow_stays :
      (acc count : ℕ) (s : List ℕ) (e : ℕ) (rest : List ℕ)
      → All (λ c. is_digit base c ≡ true) s
      → is_digit base e ≡ false
      → strtol_digits base cutoff cutlim acc overflow count (s ++ e ∷ rest)
        ≡ some (acc, overflow, count + length s)
  overflow_stays acc count [] e rest all stop =
      digits_stop acc overflow count e rest stop ∙ ap (λ n. some (acc, overflow, n)) (omega arith)
  overflow_stays acc count (c ∷ s) e rest all stop =
      (digits_step acc overflow count c (s ++ e ∷ rest) all.0).1
      ∙ overflow_stays acc (suc count) s e rest all.1 stop
      ∙ ap (λ n. some (acc, overflow, n)) (omega arith)

-- What digits come to: their number, or too many.
abbrev pub Read : ℕ → ℕ → ℕ → Option (ℕ × Seen × ℕ) → Type 0
Read bound n count r =
    ((bound < n) × ((acc : ℕ) × (r ≡ some (acc, overflow, count))))
    ⊎ ((n ≤ bound) × (r ≡ some (n, digits, count)))

-- From a number that was read before on.
pub strtol_digits-Read :
    (bound base acc count : ℕ) (s : List ℕ) (e : ℕ) (rest : List ℕ)
    → 0 < base
    → base < 2 ^ 31
    → bound < 2 ^ 32
    → acc ≤ bound
    → All (λ c. is_digit base c ≡ true) s
    → is_digit base e ≡ false
    → Read bound
        (number base acc s)
        (count + length s)
        (strtol_digits base (bound / base) (bound % base) acc digits count (s ++ e ∷ rest))
strtol_digits-Read bound base acc count [] e rest w signed small fits all stop = inr (
  fits,
  digits_stop base (bound / base) (bound % base) signed acc digits count e rest stop
      ∙ ap (λ n. some (acc, digits, n)) (omega arith),
)
strtol_digits-Read bound base acc count (c ∷ s) e rest w signed small fits all stop =
    let (low, step) =
      digits_step base (bound / base) (bound % base) signed acc digits count c (s ++ e ∷ rest)
        all.0 in
    let d = digit_or c in
    let test = cutoff_test bound base acc d w low in
    let more = number_more base (acc * base + d) s w in
    elim (Bool-cases (ltb bound (acc * base + d))) [
      | inl over ↦ inl (
        omega (arith, more, ltb→lt _ _ over),
        (
          acc,
          step
              ∙ rw (test, over)
                  (overflow_stays base (bound / base) (bound % base) signed acc (suc count) s e rest
                      all.1 stop
                    ∙ ap (λ n. some (acc, overflow, n)) (omega arith)),
        ),
      )
      | inr under ↦
          let inside : acc * base + d ≤ bound = ltb→ge _ _ under in
          let next : add32 (mul32 acc base) d ≡ acc * base + d = omega (arith, inside, small) in
          let r =
            strtol_digits-Read bound base (acc * base + d) (suc count) s e rest w signed small
              inside all.1 stop in
          let shift : suc count + length s ≡ count + suc (length s) = omega arith in
          elim (rw shift at r) [
            | inl (high, (kept, is)) ↦ inl (high, (kept, step ∙ rw (test, under, next) is))
            | inr (within, is) ↦ inr (within, step ∙ rw (test, under, next) is)
          ]
    ]
