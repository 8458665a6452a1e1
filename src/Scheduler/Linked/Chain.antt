-- ===== src/Scheduler/Linked/Chain.antt =====
-- Walking through a linked list and taking elements out of it.
use blesk_os.Common.{
  ℕ, ◌≤◌, some, false, ◌≡◌, refl, List, [], ◌∷◌, ◌==◌, All, length, arith, Bool-cases, inl, inr,
  ==_refl,
}
use blesk_os.Scheduler.Linked.{behind, ahead, find, up_to, looked_at, IsLinked}

module _ {A : Type 0} (key : A → ℕ) where
  -- What is found behind an element stands in the list.
  All-behind : (P : A → Type 0) (a : ℕ) (l : List A) → All P l → All P (behind key a l)
  All-behind P a [] h = tt
  All-behind P a (x ∷ l) h = elim (Bool-cases (key x == a)) [
    | inl here ↦ rw here h.1
    | inr other ↦ rw other (All-behind P a l h.1)
  ]

  pub All-ahead : (P : A → Type 0) (a : ℕ) (l : List A) → All P l → All P (ahead key a l)
  All-ahead P a l h = elim (Bool-cases (a == 0)) [
    | inl start ↦ rw start h
    | inr inside ↦ rw inside (All-behind P a l h)
  ]

  head-apart :
      (x t : A) (l rest : List A)
      → All (λ s. (key s == key x) ≡ false) l
      → l ≡ t ∷ rest
      → (key x == key t) ≡ false
  head-apart x t l rest h e =
      let apart : All (λ s. (key s == key x) ≡ false) (t ∷ rest) = rw e at h in
      ground (arith, apart.0)

  behind-behind :
      (a : ℕ) (t : A) (l rest : List A)
      → IsLinked key l
      → behind key a l ≡ t ∷ rest
      → behind key (key t) l ≡ rest
  behind-behind a t [] rest v e = absurd (ground arith)
  behind-behind a t (x ∷ l) rest v e = elim (Bool-cases (key x == a)) [
    | inl here ↦
        let e' : l ≡ t ∷ rest = rw here at e in
        let differ = head-apart x t l rest v.1 e' in rw (differ, e', ==_refl) refl
    | inr other ↦
        let e' : behind key a l ≡ t ∷ rest = rw other at e in
        let found = All-behind (λ s. (key s == key x) ≡ false) a l v.1 in
        let differ = head-apart x t (behind key a l) rest found e' in
        rw differ (behind-behind a t l rest v.2 e')
  ]

  -- The walk goes on behind the element that was found.
  pub ahead-ahead :
      (a : ℕ) (t : A) (l rest : List A)
      → IsLinked key l
      → ahead key a l ≡ t ∷ rest
      → behind key (key t) l ≡ rest
  ahead-ahead a t l rest v e = elim (Bool-cases (a == 0)) [
    | inl start ↦ (let e' : l ≡ t ∷ rest = rw start at e in rw (e', ==_refl) refl)
    | inr inside ↦ behind-behind a t l rest v (rw inside at e)
  ]

  -- An element that is ahead is the one at its address.
  behind-find :
      (a : ℕ) (t : A) (l rest : List A)
      → IsLinked key l
      → behind key a l ≡ t ∷ rest
      → find key (key t) l ≡ some t
  behind-find a t [] rest v e = absurd (ground arith)
  behind-find a t (x ∷ l) rest v e = elim (Bool-cases (key x == a)) [
    | inl here ↦
        let e' : l ≡ t ∷ rest = rw here at e in
        let differ = head-apart x t l rest v.1 e' in rw (differ, e', ==_refl) refl
    | inr other ↦
        let e' : behind key a l ≡ t ∷ rest = rw other at e in
        let found = All-behind (λ s. (key s == key x) ≡ false) a l v.1 in
        let differ = head-apart x t (behind key a l) rest found e' in
        rw differ (behind-find a t l rest v.2 e')
  ]

  pub ahead-find :
      (a : ℕ) (t : A) (l rest : List A)
      → IsLinked key l
      → ahead key a l ≡ t ∷ rest
      → find key (key t) l ≡ some t
  ahead-find a t l rest v e = elim (Bool-cases (a == 0)) [
    | inl start ↦ (let e' : l ≡ t ∷ rest = rw start at e in rw (e', ==_refl) refl)
    | inr inside ↦ behind-find a t l rest v (rw inside at e)
  ]

  pub IsLinked-nonzero : (l : List A) → IsLinked key l → All (λ t. (key t == 0) ≡ false) l
  IsLinked-nonzero [] v = tt
  IsLinked-nonzero (x ∷ l) v = (v.0, IsLinked-nonzero l v.2)

  pub ahead-nonzero :
      (a : ℕ) (t : A) (l rest : List A)
      → IsLinked key l
      → ahead key a l ≡ t ∷ rest
      → (key t == 0) ≡ false
  ahead-nonzero a t l rest v e =
      let nonzero = All-ahead (λ s. (key s == 0) ≡ false) a l (IsLinked-nonzero l v) in
      let found : All (λ s. (key s == 0) ≡ false) (t ∷ rest) = rw e at nonzero in found.0

  -- What was looked at, when one more element is.
  behind-up_to :
      (P : A → Type 0) (a : ℕ) (t : A) (l rest : List A)
      → IsLinked key l
      → behind key a l ≡ t ∷ rest
      → All P (up_to key a l)
      → P t
      → All P (up_to key (key t) l)
  behind-up_to P a t [] rest v e h p = absurd (ground arith)
  behind-up_to P a t (x ∷ l) rest v e h p = elim (Bool-cases (key x == a)) [
    | inl here ↦
        let e' : l ≡ t ∷ rest = rw here at e in
        let first : All P (x ∷ []) = rw here at h in
        let differ = head-apart x t l rest v.1 e' in rw (differ, e', ==_refl) (first.0, (p, tt))
    | inr other ↦
        let e' : behind key a l ≡ t ∷ rest = rw other at e in
        let both : All P (x ∷ up_to key a l) = rw other at h in
        let found = All-behind (λ s. (key s == key x) ≡ false) a l v.1 in
        let differ = head-apart x t (behind key a l) rest found e' in
        rw differ (both.0, behind-up_to P a t l rest v.2 e' both.1 p)
  ]

  pub ahead-looked_at :
      (P : A → Type 0) (a : ℕ) (t : A) (l rest : List A)
      → IsLinked key l
      → ahead key a l ≡ t ∷ rest
      → All P (looked_at key a l)
      → P t
      → All P (looked_at key (key t) l)
  ahead-looked_at P a t l rest v e h p =
      let nonzero = ahead-nonzero a t l rest v e in
      elim (Bool-cases (a == 0)) [
        | inl start ↦ let e' : l ≡ t ∷ rest = rw start at e in rw (nonzero, e', ==_refl) (p, tt)
        | inr inside ↦ rw nonzero (behind-up_to P a t l rest v (rw inside at e) (rw inside at h) p)
      ]

  -- At the end of the list everything was looked at.
  behind-All :
      (P : A → Type 0) (a : ℕ) (l : List A) → behind key a l ≡ [] → All P (up_to key a l) → All P l
  behind-All P a [] e h = tt
  behind-All P a (x ∷ l) e h = elim (Bool-cases (key x == a)) [
    | inl here ↦
        let e' : l ≡ [] = rw here at e in let first : All P (x ∷ []) = rw here at h in rw e' first
    | inr other ↦
        let e' : behind key a l ≡ [] = rw other at e in
        let both : All P (x ∷ up_to key a l) = rw other at h in (both.0, behind-All P a l e' both.1)
  ]

  pub ahead-All :
      (P : A → Type 0) (a : ℕ) (l : List A)
      → ahead key a l ≡ []
      → All P (looked_at key a l)
      → All P l
  ahead-All P a l e h = elim (Bool-cases (a == 0)) [
    | inl start ↦ (let e' : l ≡ [] = rw start at e in rw e' tt)
    | inr inside ↦ behind-All P a l (rw inside at e) (rw inside at h)
  ]

  behind-shorter : (a : ℕ) (l : List A) → length (behind key a l) ≤ length l
  behind-shorter a [] = omega arith
  behind-shorter a (x ∷ l) = ground (arith, behind-shorter a l)

  pub ahead-shorter : (a : ℕ) (l : List A) → length (ahead key a l) ≤ length l
  ahead-shorter a l = ground (arith, behind-shorter a l)
