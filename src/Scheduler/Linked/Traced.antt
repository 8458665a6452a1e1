-- ===== src/Scheduler/Linked/Traced.antt =====
-- Where the elements of a changed linked list come from.
use blesk_os.Common.{
  ℕ, false, ◌≡◌, refl, List, [], ◌∷◌, ◌==◌, All, map, arith, Bool-cases, inl, inr, sym, ◌∙◌, some,
}
use blesk_os.Scheduler.Linked.{without, change, find, IsLinked}
use blesk_os.Scheduler.Linked.Removal.{find-without, All-apart}

module _ {A : Type 0} (key : A → ℕ) where
  -- Each element of the second list was an element of the first one at the same address, and `R`
  -- relates what it was to what it is.
  abbrev pub Traced : (A → A → Type 0) → List A → List A → Type 0
  Traced R l l' =
      (a : ℕ) (s : A) → find key a l' ≡ some s → (t : A) × (find key a l ≡ some t) × R t s

  pub Traced-trans :
      (R : A → A → Type 0) (l m n : List A)
      → ((t s r : A) → R t s → R s r → R t r)
      → Traced R l m
      → Traced R m n
      → Traced R l n
  Traced-trans R l m n joins first second a s e =
      let (r, here, later) = second a s e in
      let (t, there, before) = first a r here in (t, there, joins t r s before later)

  find-apart :
      (a : ℕ) (t : A) (l : List A) → All (λ s. (key s == a) ≡ false) l → find key a l ≡ some t → ⊥
  find-apart a t [] h e = absurd (ground arith)
  find-apart a t (x ∷ l) h e = find-apart a t l h.1 (rw h.0 at e)

  pub Traced-without :
      (R : A → A → Type 0) (b : ℕ) (l : List A)
      → ((t : A) → R t t)
      → IsLinked key l
      → Traced R l (without key b l)
  Traced-without R b l same v a s e = elim (Bool-cases (a == b)) [
    | inl here ↦
        let at_b : a ≡ b = ground arith in
        absurd (find-apart b s (without key b l) (All-apart key b l v) (rw at_b at e))
    | inr apart ↦ (s, sym (find-without key a b l apart) ∙ e, same s)
  ]

  module _ (f : A → A) (keeps : (t : A) → key (f t) ≡ key t) where
    pub Traced-change :
        (R : A → A → Type 0) (b : ℕ) (l : List A)
        → ((t : A) → R t t)
        → ((t : A) → R t (f t))
        → Traced R l (change key b f l)
    Traced-change R b [] same changes a s e = absurd (ground arith)
    Traced-change R b (x ∷ l) same changes a s e =
        let rest = Traced-change R b l same changes a s in
        elim (Bool-cases (key x == b)) [
          | inl changed ↦ elim (Bool-cases (key x == a)) [
            | inl here ↦
                let is : some (f x) ≡ some s = rw (changed, keeps x, here) at e in
                let same_place : f x ≡ s = ground arith in
                (x, rw here refl, rw (← same_place) (changes x))
            | inr apart ↦ rw apart (rest (rw (changed, keeps x, apart) at e))
          ]
          | inr kept ↦ elim (Bool-cases (key x == a)) [
            | inl here ↦
                let is : some x ≡ some s = rw (kept, here) at e in
                let same_place : x ≡ s = ground arith in
                (x, rw here refl, rw (← same_place) (same x))
            | inr apart ↦ rw apart (rest (rw (kept, apart) at e))
          ]
        ]

    pub Traced-map :
        (R : A → A → Type 0) (l : List A) → ((t : A) → R t (f t)) → Traced R l (map f l)
    Traced-map R [] changes a s e = absurd (ground arith)
    Traced-map R (x ∷ l) changes a s e = elim (Bool-cases (key x == a)) [
      | inl here ↦
          let is : some (f x) ≡ some s = rw (keeps x, here) at e in
          let same_place : f x ≡ s = ground arith in
          (x, rw here refl, rw (← same_place) (changes x))
      | inr apart ↦ rw apart (Traced-map R l changes a s (rw (keeps x, apart) at e))
    ]
