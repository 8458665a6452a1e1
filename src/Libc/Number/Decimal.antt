-- ===== src/Libc/Number/Decimal.antt =====
-- `itoa` and `atoi`: what one writes the other reads.
use blesk_os.Common.{
  true, true, false, ◌&&◌, ℕ, zero, suc, ◌+◌, ◌*◌, ◌/◌, ◌%◌, ◌^◌, ◌≤◌, ◌<◌, ◌≡◌, ◌≢◌, refl, ap, ◌∙◌,
  some, List, [], ◌∷◌, ◌++◌, length, length-append, ◌==◌, ltb, leb, arith, sub32, Bool-cases, inl,
  inr,
}
use blesk_os.Libc.Number.{
  itoa_digits, itoa_store, itoa, atoi_digits, atoi_sign, atoi, negate_result,
}

-- One more than the largest number of `n` digits.
abbrev digits_bound : ℕ → ℕ
digits_bound zero = 1
digits_bound (suc n) = 10 * digits_bound n

atoi_digits-step :
    (r c : ℕ) (s : List ℕ)
    → c < 10
    → r * 10 + c < 2 ^ 32
    → atoi_digits r ((c + b'0') ∷ s) ≡ atoi_digits (r * 10 + c) s
unfolding atoi_digits
atoi_digits-step r c s h k =
    let test : (leb b'0' (c + b'0') && leb (c + b'0') b'9') ≡ true = ground arith in
    rw test (ap (λ t. atoi_digits t s) (omega arith))

-- The digits in front of a text count for the number they were written from.
atoi_digits-itoa_digits :
    (n v : ℕ) (buffer rest : List ℕ)
    → v < digits_bound n
    → v < 2 ^ 32
    → atoi_digits 0 (itoa_digits n v buffer ++ rest) ≡ atoi_digits v (buffer ++ rest)
unfolding itoa_digits
atoi_digits-itoa_digits zero v buffer rest h k =
    ap (λ t. atoi_digits t (buffer ++ rest)) (omega arith)
atoi_digits-itoa_digits (suc n) v buffer rest h k = elim (Bool-cases (v == 0)) [
  | inl done ↦ rw done (ap (λ t. atoi_digits t (buffer ++ rest)) (ground arith))
  | inr more ↦ rw more (
      atoi_digits-itoa_digits n (v / 10) ((v % 10 + b'0') ∷ buffer) rest (omega arith) (omega arith)
      ∙ atoi_digits-step (v / 10) (v % 10) (buffer ++ rest) (omega arith) (omega arith)
      ∙ ap (λ t. atoi_digits t (buffer ++ rest)) (omega arith))
]

length-itoa_digits :
    (n k v : ℕ) (buffer : List ℕ)
    → v < digits_bound k
    → length (itoa_digits n v buffer) ≤ k + length buffer
unfolding itoa_digits
length-itoa_digits zero k v buffer h = omega arith
length-itoa_digits (suc n) zero v buffer h = ground arith
length-itoa_digits (suc n) (suc k) v buffer h = elim (Bool-cases (v == 0)) [
  | inl done ↦ rw done (omega arith)
  | inr more ↦
      rw more
        (omega (arith, length-itoa_digits n k (v / 10) ((v % 10 + b'0') ∷ buffer) (omega arith)))
]

-- A text that begins with a digit.
abbrev Digit : List ℕ → Type 0
Digit [] = ⊥
Digit (c ∷ s) = (b'0' ≤ c) × (c ≤ b'9')

itoa_digits-Digit : (n v : ℕ) (buffer : List ℕ) → Digit buffer → Digit (itoa_digits n v buffer)
unfolding itoa_digits
itoa_digits-Digit zero v buffer h = h
itoa_digits-Digit (suc n) v buffer h = elim (Bool-cases (v == 0)) [
  | inl done ↦ rw done h
  | inr more ↦
      rw more (itoa_digits-Digit n (v / 10) ((v % 10 + b'0') ∷ buffer) (omega arith, omega arith))
]

atoi-Digit : (s rest : List ℕ) → Digit s → atoi (s ++ rest) ≡ atoi_digits 0 (s ++ rest)
unfolding atoi atoi_sign
atoi-Digit [] rest h = absurd h
atoi-Digit (c ∷ s) rest h = ground arith

-- The digits of a number other than 0.
digits_of : (v : ℕ) → v ≢ 0 → Digit (itoa_digits 19 v [])
unfolding itoa_digits
digits_of v h =
    let more : (v == 0) ≡ false = ground arith in
    rw more (itoa_digits-Digit 18 (v / 10) ((v % 10 + b'0') ∷ []) (omega arith, omega arith))

atoi_digits-digits : (v : ℕ) → v < 2 ^ 32 → atoi_digits 0 (itoa_digits 19 v [] ++ (0 ∷ [])) ≡ some v
unfolding atoi_digits
atoi_digits-digits v h = atoi_digits-itoa_digits 19 v [] (0 ∷ []) (omega arith) h

itoa_store-short :
    (size : ℕ) (buffer : List ℕ)
    → length buffer < size
    → size < 2 ^ 31
    → itoa_store size buffer ≡ some (buffer ++ (0 ∷ []))
unfolding itoa_store
itoa_store-short size buffer h m = ground arith

itoa_positive :
    (value size : ℕ)
    → value ≢ 0
    → value < 2 ^ 31
    → 12 ≤ size
    → size < 2 ^ 31
    → itoa value size ≡ some (itoa_digits 19 value [] ++ (0 ∷ []))
unfolding itoa
itoa_positive value size n h l m = ground (
  arith,
  length-itoa_digits 19 10 value [] (omega arith),
  itoa_store-short size (itoa_digits 19 value []),
)

itoa_negative :
    (value size : ℕ)
    → 2 ^ 31 < value
    → value < 2 ^ 32
    → 12 ≤ size
    → size < 2 ^ 31
    → itoa value size ≡ some (b'-' ∷ itoa_digits 19 (sub32 0 value) [] ++ (0 ∷ []))
unfolding itoa
itoa_negative value size n h l m =
    let digits = itoa_digits 19 (sub32 0 value) [] in
    let room : (size == 0) ≡ false = ground arith in
    let other : (value == 0) ≡ false = ground arith in
    let no_overflow : (value == 2 ^ 31) ≡ false = ground arith in
    let minus : ltb (2 ^ 31) value ≡ true = ground arith in
    let few = length-itoa_digits 19 10 (sub32 0 value) [] (omega arith) in
    rw (room, other, no_overflow, minus)
      (itoa_store-short size (b'-' ∷ digits) (omega (arith, few)) m)

atoi-minus : (s : List ℕ) → atoi (b'-' ∷ s) ≡ negate_result (atoi_digits 0 s)
unfolding atoi atoi_sign
atoi-minus s = refl

itoa_zero : (value size : ℕ) → value ≡ 0 → 1 < size → itoa value size ≡ some (b'0' ∷ 0 ∷ [])
unfolding itoa
itoa_zero value size e h = ground arith

zero_text : (value : ℕ) → value ≡ 0 → atoi (b'0' ∷ 0 ∷ []) ≡ some value
unfolding atoi atoi_sign atoi_digits
zero_text value e = ap some (omega arith)

-- For each `int` but the smallest one and a buffer of at least twelve characters and fewer than 2^31,
-- `itoa` writes a text that fits into the buffer and from which `atoi` reads the number again.
pub atoi-itoa :
    (value size : ℕ)
    → value < 2 ^ 32
    → value ≢ 2 ^ 31
    → 12 ≤ size
    → size < 2 ^ 31
    → (text : List ℕ) × (itoa value size ≡ some text)
      × (length text ≤ size)
      × (atoi text ≡ some value)
atoi-itoa value size h n l m = elim (Bool-cases (value == 0)) [
  | inl null ↦ (
    b'0' ∷ 0 ∷ [],
    itoa_zero value size (ground arith) (omega arith),
    omega arith,
    zero_text value (ground arith),
  )
  | inr other ↦ elim (Bool-cases (ltb value (2 ^ 31))) [
    | inl plus ↦ (
      itoa_digits 19 value [] ++ (0 ∷ []),
      itoa_positive value size (ground arith) (ground arith) l m,
      omega (
        arith,
        length-append (itoa_digits 19 value []) (0 ∷ []),
        length-itoa_digits 19 10 value [] (ground arith),
      ),
      atoi-Digit (itoa_digits 19 value []) (0 ∷ []) (digits_of value (ground arith))
          ∙ atoi_digits-digits value h,
    )
    | inr minus ↦
        let v = sub32 0 value in
        (
          b'-' ∷ itoa_digits 19 v [] ++ (0 ∷ []),
          itoa_negative value size (ground arith) h l m,
          omega (
            arith,
            length-append (itoa_digits 19 v []) (0 ∷ []),
            length-itoa_digits 19 10 v [] (ground arith),
          ),
          atoi-minus (itoa_digits 19 v [] ++ (0 ∷ []))
              ∙ ap negate_result (atoi_digits-digits v (omega arith))
              ∙ ap some (ground arith),
        )
  ]
]
