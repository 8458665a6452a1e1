-- ===== src/Scheduler/Linked/Removal.antt =====
-- Elements that are taken out of a linked list or changed.
use blesk_os.Common.{
  ℕ, suc, false, ◌≡◌, refl, List, [], ◌∷◌, ◌==◌, if◌then◌else◌, All, map, length, arith, Bool-cases,
  inl, inr, ap, Option, some,
}
use blesk_os.Scheduler.Linked.{behind, without, change, find, IsLinked}

module _ {A : Type 0} (key : A → ℕ) where
  pub All-without : (P : A → Type 0) (a : ℕ) (l : List A) → All P l → All P (without key a l)
  All-without P a [] h = tt
  All-without P a (x ∷ l) h = elim (Bool-cases (key x == a)) [
    | inl here ↦ rw here h.1
    | inr other ↦ rw other (h.0, All-without P a l h.1)
  ]

  pub IsLinked-without : (a : ℕ) (l : List A) → IsLinked key l → IsLinked key (without key a l)
  IsLinked-without a [] v = tt
  IsLinked-without a (x ∷ l) v = elim (Bool-cases (key x == a)) [
    | inl here ↦ rw here v.2
    | inr other ↦
        rw other
          (v.0, All-without (λ s. (key s == key x) ≡ false) a l v.1, IsLinked-without a l v.2)
  ]

  pub find-length :
      (a : ℕ) (t : A) (l : List A)
      → find key a l ≡ some t
      → length l ≡ suc (length (without key a l))
  find-length a t [] e = absurd (ground arith)
  find-length a t (x ∷ l) e = elim (Bool-cases (key x == a)) [
    | inl here ↦ rw here refl
    | inr other ↦
        let e' : find key a l ≡ some t = rw other at e in rw other (ap suc (find-length a t l e'))
  ]

  pub find-without :
      (a b : ℕ) (l : List A) → (a == b) ≡ false → find key a (without key b l) ≡ find key a l
  find-without a b [] h = refl
  find-without a b (x ∷ l) h = elim (Bool-cases (key x == b)) [
    | inl here ↦ (let apart : (key x == a) ≡ false = ground arith in rw (here, apart) refl)
    | inr other ↦
        rw other (ap (λ (r : Option A). if key x == a then some x else r) (find-without a b l h))
  ]

  -- After the removal nothing is at the address.
  pub All-apart :
      (a : ℕ) (l : List A) → IsLinked key l → All (λ s. (key s == a) ≡ false) (without key a l)
  All-apart a [] v = tt
  All-apart a (x ∷ l) v = elim (Bool-cases (key x == a)) [
    | inl here ↦ (let same : key x ≡ a = ground arith in rw here (rw same at v.1))
    | inr other ↦ rw other (other, All-apart a l v.2)
  ]

  module _ (f : A → A) where
    pub All-change :
        (P : A → Type 0) (a : ℕ) (l : List A)
        → ((t : A) → P t → P (f t))
        → All P l
        → All P (change key a f l)
    All-change P a [] k h = tt
    All-change P a (x ∷ l) k h = elim (Bool-cases (key x == a)) [
      | inl here ↦ rw here (k x h.0, All-change P a l k h.1)
      | inr other ↦ rw other (h.0, All-change P a l k h.1)
    ]

    pub length-change : (a : ℕ) (l : List A) → length (change key a f l) ≡ length l
    length-change a [] = refl
    length-change a (x ∷ l) = ap suc (length-change a l)

    pub length-map : (l : List A) → length (map f l) ≡ length l
    length-map [] = refl
    length-map (x ∷ l) = ap suc (length-map l)

    pub All-map :
        (P : A → Type 0) (l : List A) → ((t : A) → P t → P (f t)) → All P l → All P (map f l)
    All-map P [] k h = tt
    All-map P (x ∷ l) k h = (k x h.0, All-map P l k h.1)

    module _ (keeps : (t : A) → key (f t) ≡ key t) where
      pub IsLinked-change : (a : ℕ) (l : List A) → IsLinked key l → IsLinked key (change key a f l)
      IsLinked-change a [] v = tt
      IsLinked-change a (x ∷ l) v =
          let others = All-change (λ s. (key s == key x) ≡ false) a l (λ t h. rw (keeps t) h) v.1 in
          elim (Bool-cases (key x == a)) [
            | inl here ↦ rw (here, keeps) (v.0, others, IsLinked-change a l v.2)
            | inr other ↦ rw other (v.0, others, IsLinked-change a l v.2)
          ]

      pub find-change :
          (a : ℕ) (t : A) (l : List A)
          → find key a l ≡ some t
          → find key a (change key a f l) ≡ some (f t)
      find-change a t [] e = absurd (ground arith)
      find-change a t (x ∷ l) e = elim (Bool-cases (key x == a)) [
        | inl here ↦
            let e' : some x ≡ some t = rw here at e in
            let same : x ≡ t = ground arith in
            rw (here, keeps x, here) (ap (λ (y : A). some (f y)) same)
        | inr other ↦
            let e' : find key a l ≡ some t = rw other at e in
            rw (other, other) (find-change a t l e')
      ]

      -- An element keeps its place under a change at any address.
      pub find-change_any :
          (a b : ℕ) (t : A) (l : List A)
          → find key a l ≡ some t
          → find key a (change key b f l) ≡ some (if key t == b then f t else t)
      find-change_any a b t [] e = absurd (ground arith)
      find-change_any a b t (x ∷ l) e = elim (Bool-cases (key x == a)) [
        | inl here ↦
            let e' : some x ≡ some t = rw here at e in
            let same : x ≡ t = ground arith in
            elim (Bool-cases (key x == b)) [
              | inl changed ↦ rw (← same, changed, keeps x, here) refl
              | inr other ↦ rw (← same, other, here) refl
            ]
        | inr apart ↦
            let e' : find key a l ≡ some t = rw apart at e in
            let rest = find-change_any a b t l e' in
            elim (Bool-cases (key x == b)) [
              | inl changed ↦ rw (changed, keeps x, apart) rest
              | inr other ↦ rw (other, apart) rest
            ]
      ]

      pub IsLinked-map : (l : List A) → IsLinked key l → IsLinked key (map f l)
      IsLinked-map [] v = tt
      IsLinked-map (x ∷ l) v =
          let others = All-map (λ s. (key s == key x) ≡ false) l (λ t h. rw (keeps t) h) v.1 in
          rw (keeps x) (v.0, others, IsLinked-map l v.2)

      pub find-map :
          (a : ℕ) (t : A) (l : List A) → find key a l ≡ some t → find key a (map f l) ≡ some (f t)
      find-map a t [] e = absurd (ground arith)
      find-map a t (x ∷ l) e = elim (Bool-cases (key x == a)) [
        | inl here ↦
            let e' : some x ≡ some t = rw here at e in
            let same : x ≡ t = ground arith in rw (keeps x, here) (ap (λ (y : A). some (f y)) same)
        | inr apart ↦
            let e' : find key a l ≡ some t = rw apart at e in
            rw (keeps x, apart) (find-map a t l e')
      ]

      -- A change does not change how far the walk is.
      pub length-behind_change :
          (a b : ℕ) (l : List A)
          → length (behind key a (change key b f l)) ≡ length (behind key a l)
      length-behind_change a b [] = refl
      length-behind_change a b (x ∷ l) = elim (Bool-cases (key x == b)) [
        | inl changed ↦ elim (Bool-cases (key x == a)) [
          | inl here ↦ rw (changed, keeps x, here) (length-change b l)
          | inr other ↦ rw (changed, keeps x, other) (length-behind_change a b l)
        ]
        | inr kept ↦ elim (Bool-cases (key x == a)) [
          | inl here ↦ rw (kept, here) (length-change b l)
          | inr other ↦ rw (kept, other) (length-behind_change a b l)
        ]
      ]
