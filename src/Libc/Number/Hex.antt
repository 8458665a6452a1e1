-- ===== src/Libc/Number/Hex.antt =====
-- `htoa` and `htoan`.
use blesk_os.Common.{
  ◌⊎◌, ◌≤◌, refl, some, false, ℕ, zero, suc, ◌+◌, ◌-◌, ◌*◌, ◌/◌, ◌%◌, ◌^◌, ◌<◌, ◌≡◌, ap, ◌∙◌, List,
  [], ◌∷◌, ◌++◌, ◌==◌, ltb, arith, Bool-cases, inl, inr, if◌then◌else◌,
}
use blesk_os.Libc.Number.{hex_digit, htoa_digits, htoa, htoan_digits, htoan}

-- The number of a hexadecimal digit.
abbrev digit_value : ℕ → ℕ
digit_value c = if ltb c b'A' then c - b'0' else c - b'A' + 10

-- The number that a text of hexadecimal digits stands for, behind the digits of `r`, up to its 0.
abbrev pub hex_value : ℕ → List ℕ → ℕ
hex_value r [] = r
hex_value r (c ∷ s) = if c == 0 then r else hex_value (r * 16 + digit_value c) s

hex_value-digit :
    (r d : ℕ) (s : List ℕ) → d < 16 → hex_value r (hex_digit d ∷ s) ≡ hex_value (r * 16 + d) s
hex_value-digit r d s h =
    let test : (hex_digit d == 0) ≡ false = ground arith in
    rw test (ap (λ t. hex_value t s) (ground arith))

abbrev hex_bound : ℕ → ℕ
hex_bound zero = 1
hex_bound (suc n) = 16 * hex_bound n

hex_value-htoa_digits :
    (n v : ℕ) (temp rest : List ℕ)
    → v < hex_bound (suc n)
    → hex_value 0 (htoa_digits (suc n) v temp ++ rest) ≡ hex_value v (temp ++ rest)
unfolding htoa_digits
hex_value-htoa_digits zero v temp rest h =
    let small : v / 16 ≡ 0 = omega arith in
    rw small (
      hex_value-digit 0 (v % 16) (temp ++ rest) (omega arith)
      ∙ ap (λ t. hex_value t (temp ++ rest)) (omega arith))
hex_value-htoa_digits (suc n) v temp rest h = elim (Bool-cases (v / 16 == 0)) [
  | inl done ↦ rw done (
      hex_value-digit 0 (v % 16) (temp ++ rest) (omega arith)
      ∙ ap (λ t. hex_value t (temp ++ rest)) (ground arith))
  | inr more ↦ rw more (
      hex_value-htoa_digits n (v / 16) (hex_digit (v % 16) ∷ temp) rest (omega arith)
      ∙ hex_value-digit (v / 16) (v % 16) (temp ++ rest) (omega arith)
      ∙ ap (λ t. hex_value t (temp ++ rest)) (omega arith))
]

-- For each number of 32 bits the text that `htoa` writes stands for that number.
htoa-value : (value : ℕ) → value < 2 ^ 32 → hex_value 0 (htoa value) ≡ value
unfolding htoa
htoa-value value h = hex_value-htoa_digits 7 value [] (0 ∷ []) (omega arith)

-- The digit of a number that has `j` digits behind it.
abbrev pub nibble : ℕ → ℕ → ℕ
nibble v zero = v % 16
nibble v (suc j) = nibble (v / 16) j

htoan_digits-other :
    (n v : ℕ) (str : ℕ → ℕ) (k : ℕ) → (k < 2) ⊎ (2 + n ≤ k) → htoan_digits n v str k ≡ str k
unfolding htoan_digits
htoan_digits-other zero v str k h = refl
htoan_digits-other (suc n) v str k h =
    ground (
      arith,
      htoan_digits-other n (v / 16) (λ i. if i == 2 + n then hex_digit (v % 16) else str i) k,
    )

htoan_digits-nibble :
    (n v : ℕ) (str : ℕ → ℕ) (j k : ℕ)
    → j + k + 1 ≡ n
    → htoan_digits n v str (2 + k) ≡ hex_digit (nibble v j)
unfolding htoan_digits
htoan_digits-nibble zero v str j k h = absurd (omega arith)
htoan_digits-nibble (suc n) v str zero k h =
    let str' = λ (i : ℕ). if i == 2 + n then hex_digit (v % 16) else str i in
    htoan_digits-other n (v / 16) str' (2 + k) (inr (omega arith)) ∙ ground arith
htoan_digits-nibble (suc n) v str (suc j) k h =
    let str' = λ (i : ℕ). if i == 2 + n then hex_digit (v % 16) else str i in
    htoan_digits-nibble n (v / 16) str' j k (omega arith)

-- For a count other than 0 `htoan` writes `0x` and as many digits of the number, the lowest one
-- last; the zero goes one place too far, and the place behind the digits is left as it was.
htoan-nibble :
    (value : ℕ) (str : ℕ → ℕ) (n : ℕ)
    → 0 < n
    → (str' : ℕ → ℕ) × (htoan value str n ≡ some str')
      × (str' 0 ≡ b'0')
      × (str' 1 ≡ b'x')
      × ((j k : ℕ) → j + k + 1 ≡ n → str' (2 + k) ≡ hex_digit (nibble value j))
      × (str' (2 + n) ≡ str (2 + n))
      × (str' (3 + n) ≡ 0)
unfolding htoan
htoan-nibble value str n h =
    let prefixed = λ (k : ℕ).
      if k == 0 then b'0' else if k == 1 then b'x' else if k == 2 + n + 1 then 0 else str k in
    let some_digits : (n == 0) ≡ false = ground arith in
    (
      htoan_digits n value prefixed,
      rw some_digits refl,
      htoan_digits-other n value prefixed 0 (inl (omega arith)),
      htoan_digits-other n value prefixed 1 (inl (omega arith)),
      htoan_digits-nibble n value prefixed,
      htoan_digits-other n value prefixed (2 + n) (inr (omega arith)) ∙ ground arith,
      htoan_digits-other n value prefixed (3 + n) (inr (omega arith)) ∙ ground arith,
    )
