-- ===== src/Memory/Physical/Bump.antt =====
-- `pm_bump_alloc` takes whole pages off the front of one entry of the free memory map.
use blesk_os.Common.{
  ℕ, ◌+◌, ◌^◌, ◌<◌, ◌≡◌, ◌↔◌, refl, ◌&&◌, none, some, List, [], ◌∷◌, leb, ltb, arith, as_int, All,
  Bool-cases, Option-cases, inl, inr,
}
use blesk_os.Memory.Pages.{page_round}
use blesk_os.Memory.Physical.{Entry, bump_scan, bump_alloc}

-- An address lies in a region, as 1 or 0.
abbrev pub within : ℕ → ℕ → ℕ → ℕ
within a start size = as_int (leb start a && ltb a (start + size))

-- How many entries hold an address.
unfoldable pub covered : ℕ → List Entry → ℕ
covered a [] = 0
covered a (e ∷ es) = within a e.memory_start e.memory_size + covered a es

-- An entry that ends below 2 ^ 32.
abbrev pub Fits : Entry → Type 0
Fits e = e.memory_start + e.memory_size < 2 ^ 32

covered-bump_scan :
    (size a : ℕ) (es : List Entry) (p : ℕ) (es' : List Entry)
    → All Fits es
    → bump_scan size es ≡ some (p, es')
    → covered a es ≡ covered a es' + within a p size
unfolding bump_scan covered
covered-bump_scan size a [] p es' h e = cc
covered-bump_scan size a (x ∷ es) p es' h e = elim (Bool-cases (leb size x.memory_size)) [
  | inl fits ↦ ground arith
  | inr short ↦ elim (Option-cases (bump_scan size es)) [
    | inl q ↦ ground arith
    | inr (r, q) ↦ ground (arith, covered-bump_scan size a es r.0 r.1 h.1 q)
  ]
]

-- On a map whose entries end below 2 ^ 32, an allocation gives a region as long as the size
-- rounded up to pages, and each address is in one entry fewer if it lies in the region and in as
-- many as before if not: what is handed out was free, is free no more, and nothing else changes.
bump_alloc-covered :
    (size : ℕ) (es : List Entry) (p : ℕ) (es' : List Entry)
    → All Fits es
    → bump_alloc size es ≡ some (p, es')
    → (a : ℕ) → covered a es ≡ covered a es' + within a p (page_round size)
unfolding bump_alloc
bump_alloc-covered size es p es' h e a = covered-bump_scan (page_round size) a es p es' h e

bump_scan-none :
    (size : ℕ) (es : List Entry) → (bump_scan size es ≡ none) ↔ All (λ e. e.memory_size < size) es
unfolding bump_scan
bump_scan-none size [] = (λ e. tt, λ h. refl)
bump_scan-none size (x ∷ es) =
    let ih = bump_scan-none size es in (λ e. ground (arith, ih.0), λ h. ground (arith, ih.1 h.1))

-- An allocation panics exactly when every entry is shorter than the size rounded up to pages.
bump_alloc-none :
    (size : ℕ) (es : List Entry)
    → (bump_alloc size es ≡ none) ↔ All (λ e. e.memory_size < page_round size) es
unfolding bump_alloc
bump_alloc-none size es = bump_scan-none (page_round size) es
