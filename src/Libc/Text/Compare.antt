-- ===== src/Libc/Text/Compare.antt =====
-- `strlen` and the comparisons, on texts: lists of bytes other than 0, with a 0 behind them.
use blesk_os.Common.{
  zero, suc, ℕ, ◌<◌, ◌≡◌, ◌≢◌, ◌↔◌, inl, inr, refl, sym, ◌∙◌, ap, ap₂, some, List, [], ◌∷◌, ◌++◌,
  ◌==◌, length, arith, All, if◌then◌else◌, sub32, Bool-cases,
}
use blesk_os.Libc.Text.{strlen, strncmp, memcmp, strcmp}

-- A byte of a text.
abbrev pub IsChar : ℕ → Type 0
IsChar c = (c ≢ 0) × (c < 256)

-- The array that holds a text: the text, its 0, and other bytes.
abbrev pub stored : List ℕ → List ℕ → List ℕ
stored s rest = s ++ (0 ∷ rest)

-- The length of a stored text is the number of its characters.
pub strlen-stored : (s rest : List ℕ) → All IsChar s → strlen (stored s rest) ≡ some (length s)
unfolding strlen
strlen-stored [] rest h = refl
strlen-stored (c ∷ s) rest h = ground (arith, strlen-stored s rest h.1)

-- The order in which texts are compared: the difference of the first two characters that differ,
-- where the end of a text counts as 0.
abbrev pub difference : List ℕ → List ℕ → ℕ
difference [] [] = 0
difference [] (b ∷ t) = sub32 0 b
difference (a ∷ s) [] = sub32 a 0
difference (a ∷ s) (b ∷ t) = if a == b then difference s t else sub32 a b

strcmp-difference :
    (s t p q : List ℕ)
    → All IsChar s
    → All IsChar t
    → strcmp (stored s p) (stored t q) ≡ some (difference s t)
unfolding strcmp
strcmp-difference [] [] p q h k = refl
strcmp-difference [] (b ∷ t) p q h k = ground arith
strcmp-difference (a ∷ s) [] p q h k = ground arith
strcmp-difference (a ∷ s) (b ∷ t) p q h k = ground (arith, strcmp-difference s t p q h.1 k.1)

difference_zero : (s t : List ℕ) → All IsChar s → All IsChar t → difference s t ≡ 0 → s ≡ t
difference_zero [] [] h k e = refl
difference_zero [] (b ∷ t) h k e = absurd (ground arith)
difference_zero (a ∷ s) [] h k e = absurd (ground arith)
difference_zero (a ∷ s) (b ∷ t) h k e = elim (Bool-cases (a == b)) [
  | inl same ↦ ap₂ ◌∷◌ (ground arith) (difference_zero s t h.1 k.1 (ground arith))
  | inr other ↦ absurd (ground arith)
]

difference_refl : (s : List ℕ) → difference s s ≡ 0
difference_refl [] = refl
difference_refl (a ∷ s) = ground (arith, difference_refl s)

-- The comparison of two stored texts always gives a result, which is 0 exactly when the texts are
-- the same.
strcmp-zero :
    (s t p q : List ℕ)
    → All IsChar s
    → All IsChar t
    → (d : ℕ) × (strcmp (stored s p) (stored t q) ≡ some d) × ((d ≡ 0) ↔ (s ≡ t))
strcmp-zero s t p q h k = (
  difference s t,
  strcmp-difference s t p q h k,
  (difference_zero s t h k, λ e. sym (ap (difference s) e) ∙ difference_refl s),
)

-- With a limit above the length of the first text, `strncmp` gives what `strcmp` gives.
pub strncmp-strcmp :
    (s t p q : List ℕ) (n : ℕ)
    → All IsChar s
    → All IsChar t
    → length s < n
    → strncmp (stored s p) (stored t q) n ≡ strcmp (stored s p) (stored t q)
unfolding strncmp strcmp
strncmp-strcmp s t p q zero h k l = absurd (omega arith)
strncmp-strcmp [] [] p q (suc n) h k l = refl
strncmp-strcmp [] (b ∷ t) p q (suc n) h k l = refl
strncmp-strcmp (a ∷ s) [] p q (suc n) h k l = ground arith
strncmp-strcmp (a ∷ s) (b ∷ t) p q (suc n) h k l =
    ground (arith, strncmp-strcmp s t p q n h.1 k.1 (omega arith))

abbrev head_of : List ℕ → ℕ
head_of [] = 0
head_of (a ∷ s) = a

abbrev tail_of : List ℕ → List ℕ
tail_of [] = []
tail_of (a ∷ s) = s

-- The comparison of two blocks of bytes of the same length, at the start of two arrays, always gives
-- a result, which is 0 exactly when the blocks are the same.
pub memcmp-zero :
    (s t p q : List ℕ)
    → All (λ c. c < 256) s
    → All (λ c. c < 256) t
    → length s ≡ length t
    → (d : ℕ) × (memcmp (s ++ p) (t ++ q) (length s) ≡ some d) × ((d ≡ 0) ↔ (s ≡ t))
unfolding memcmp
memcmp-zero [] [] p q h k l = (0, refl, (λ e. refl, λ e. refl))
memcmp-zero [] (b ∷ t) p q h k l = absurd (omega arith)
memcmp-zero (a ∷ s) [] p q h k l = absurd (omega arith)
memcmp-zero (a ∷ s) (b ∷ t) p q h k l = elim (Bool-cases (a == b)) [
  | inl same ↦
      let (d, run, zero_iff) = memcmp-zero s t p q h.1 k.1 (omega arith) in
      (d, rw same run, (λ e. ap₂ ◌∷◌ (ground arith) (zero_iff.0 e), λ e. zero_iff.1 (ap tail_of e)))
  | inr other ↦ (
    sub32 a b,
    rw other refl,
    (λ e. absurd (ground arith), λ e. absurd (ground (arith, ap head_of e))),
  )
]
