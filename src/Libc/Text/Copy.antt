-- ===== src/Libc/Text/Copy.antt =====
-- The functions that write texts.
use blesk_os.Common.{
  ℕ, zero, suc, ◌≤◌, ◌<◌, ◌≡◌, refl, some, List, [], ◌∷◌, ◌++◌, ◌==◌, length, arith, All,
  Bool-cases, inl, inr,
}
use blesk_os.Libc.Text.{strcpy, strncpy, strcat}
use blesk_os.Libc.Text.Compare.{IsChar, stored}

-- What is behind the first bytes of an array.
abbrev pub behind_bytes : ℕ → List ℕ → List ℕ
behind_bytes zero d = d
behind_bytes (suc n) [] = []
behind_bytes (suc n) (x ∷ d) = behind_bytes n d

-- Into an array with room for the text and its 0, `strcpy` writes exactly these.
strcpy-stored :
    (dest s rest : List ℕ)
    → All IsChar s
    → length s < length dest
    → strcpy dest (stored s rest) ≡ some (stored s (behind_bytes (suc (length s)) dest))
unfolding strcpy
strcpy-stored [] s rest h l = absurd (omega arith)
strcpy-stored (d ∷ dest) [] rest h l = refl
strcpy-stored (d ∷ dest) (c ∷ s) rest h l = elim (Bool-cases (c == 0)) [
  | inl bad ↦ absurd (ground arith)
  | inr more ↦ rw (more, strcpy-stored dest s rest h.1 (omega arith)) refl
]

-- Onto an array that stores a text and has room for both texts and a 0, `strcat` leaves the two
-- texts one behind the other, and nothing else changes.
strcat-stored :
    (t free s rest : List ℕ)
    → All IsChar t
    → All IsChar s
    → length s ≤ length free
    → strcat (stored t free) (stored s rest) ≡ some (t ++ stored s (behind_bytes (length s) free))
unfolding strcat
strcat-stored [] free s rest h k l = strcpy-stored (0 ∷ free) s rest k (omega arith)
strcat-stored (c ∷ t) free s rest h k l = elim (Bool-cases (c == 0)) [
  | inl bad ↦ absurd (ground arith)
  | inr more ↦ rw (more, strcat-stored t free s rest h.1 k l) refl
]

-- With fewer characters than `n`, `strncpy` writes what `strcpy` writes.
pub strncpy-short :
    (dest s rest : List ℕ) (n : ℕ)
    → All IsChar s
    → length s < n
    → strncpy dest (stored s rest) n ≡ strcpy dest (stored s rest)
unfolding strncpy strcpy
strncpy-short dest s rest zero h l = absurd (omega arith)
strncpy-short [] [] rest (suc n) h l = refl
strncpy-short [] (c ∷ s) rest (suc n) h l = refl
strncpy-short (d ∷ dest) [] rest (suc n) h l = refl
strncpy-short (d ∷ dest) (c ∷ s) rest (suc n) h l = elim (Bool-cases (c == 0)) [
  | inl bad ↦ absurd (ground arith)
  | inr more ↦ rw (more, strncpy-short dest s rest n h.1 (omega arith)) refl
]
