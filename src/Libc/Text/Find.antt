-- ===== src/Libc/Text/Find.antt =====
-- `strstr` against the first place where a text occurs in another one.
use blesk_os.Common.{
  ℕ, suc, ◌≡◌, refl, Bool, true, false, ◌&&◌, Option, none, some, List, [], ◌∷◌, ◌==◌, arith, All,
  if◌then◌else◌, Bool-cases, inl, inr,
}
use blesk_os.Libc.Text.{after, needle_here, needle_search, strstr}
use blesk_os.Libc.Text.Compare.{IsChar, stored}

-- The text begins with the other one.
abbrev pub starts_with : List ℕ → List ℕ → Bool
starts_with h [] = true
starts_with [] (b ∷ n) = false
starts_with (a ∷ h) (b ∷ n) = (a == b) && starts_with h n

-- The first place where a text occurs.
abbrev pub first_place : List ℕ → List ℕ → Option ℕ
first_place [] n = if starts_with [] n then some 0 else none
first_place (a ∷ h) n = if starts_with (a ∷ h) n then some 0 else after suc (first_place h n)

needle_here-stored :
    (h n p q : List ℕ)
    → All IsChar h
    → All IsChar n
    → needle_here (stored h p) (stored n q) ≡ some (starts_with h n)
unfolding needle_here
needle_here-stored [] [] p q x y = refl
needle_here-stored [] (b ∷ n) p q x y = ground arith
needle_here-stored (a ∷ h) [] p q x y = ground arith
needle_here-stored (a ∷ h) (b ∷ n) p q x y = ground (arith, needle_here-stored h n p q x.1 y.1)

needle_search-stored :
    (h : List ℕ) (b : ℕ) (n p q : List ℕ)
    → All IsChar h
    → All IsChar (b ∷ n)
    → needle_search (stored h p) (stored (b ∷ n) q) ≡ some (first_place h (b ∷ n))
unfolding needle_search
needle_search-stored [] b n p q x y = refl
needle_search-stored (a ∷ h) b n p q x y = elim (Bool-cases (a == 0)) [
  | inl bad ↦ absurd (ground arith)
  | inr more ↦ elim (Bool-cases (starts_with (a ∷ h) (b ∷ n))) [
    | inl hit ↦ rw (more, needle_here-stored (a ∷ h) (b ∷ n) p q x y, hit) refl
    | inr miss ↦
        rw
          (
            more,
            needle_here-stored (a ∷ h) (b ∷ n) p q x y,
            miss,
            needle_search-stored h b n p q x.1 y,
          )
          refl
  ]
]

-- On stored texts `strstr` finds the first place where the needle occurs, or NULL when it occurs
-- nowhere; the empty needle occurs at the start.
pub strstr-first_place :
    (h n p q : List ℕ)
    → All IsChar h
    → All IsChar n
    → strstr (stored h p) (stored n q) ≡ some (first_place h n)
unfolding strstr
strstr-first_place [] [] p q x y = refl
strstr-first_place (a ∷ h) [] p q x y = refl
strstr-first_place h (b ∷ n) p q x y = elim (Bool-cases (b == 0)) [
  | inl bad ↦ absurd (ground arith)
  | inr more ↦ rw more (needle_search-stored h b n p q x y)
]
