-- ===== src/Memory/Physical/Local.antt =====
-- The stack of one processor and the global stack together: no page is lost or made by
-- `pm_local_alloc_page` and `pm_local_free_page`, and no word behind the 256 is touched.
use blesk_os.Common.{
  ◌<◌, ◌≢◌, ◌↔◌, refl, none, some, as_int, Option-cases, ℕ, zero, suc, ◌+◌, ◌-◌, ◌≤◌, ◌≡◌, ◌==◌,
  arith, Bool-cases, inl, inr,
}
use blesk_os.Memory.Physical.{
  push, take_local, local_alloc_page, spill, put_local, local_free_page, PhyMem, write, refill,
}
use blesk_os.Memory.Physical.Occurrences.{
  occurrences-write_below, occurrences, occurrences-last, occurrences-snoc,
}

-- How often a page is free: on the local stack with `index` pages or on the global one.
abbrev pub total_at : ℕ → ℕ → (ℕ → ℕ) → PhyMem → ℕ
total_at p index local m = occurrences p local 1 index + occurrences p m.stack 0 m.stack_pointer

abbrev pub total : ℕ → (ℕ → ℕ) → PhyMem → ℕ
total p local m = total_at p (local 0) local m

-- What the loop that takes pages keeps.
record Refilled (p n index : ℕ) (local : ℕ → ℕ) (m : PhyMem) (r : ℕ × (ℕ → ℕ) × PhyMem)
    : Type 0 where
  same : total_at p r.0 r.1 r.2 ≡ total_at p index local m
  grows : index ≤ r.0
  bounded : r.0 ≤ index + n
  counted : r.2.number_of_allocated_pages ≡ m.number_of_allocated_pages

refill-Refilled :
    (p n index : ℕ) (local : ℕ → ℕ) (m : PhyMem)
    → Refilled p n index local m (refill n index local m)
unfolding refill
refill-Refilled p zero index local m = ground arith
refill-Refilled p (suc n) index local m =
    let page = m.stack (m.stack_pointer - 1) in
    let local' = write local (index + 1) page in
    let m' : PhyMem = record m { stack_pointer = m.stack_pointer - 1 } in
    elim (Bool-cases (m.stack_pointer == 0)) [
      | inl empty ↦ rw empty (ground arith)
      | inr more ↦ rw more (
          ground (
            arith,
            refill-Refilled p n (index + 1) local' m',
            occurrences-snoc p local 1 index (index + 1) page,
            occurrences-last p m.stack 0 m.stack_pointer,
          ))
    ]

refill-starts :
    (n index : ℕ) (local : ℕ → ℕ) (m : PhyMem)
    → m.stack_pointer ≢ 0
    → index < (refill (suc n) index local m).0
unfolding refill
refill-starts n index local m h =
    let page = m.stack (m.stack_pointer - 1) in
    let m' : PhyMem = record m { stack_pointer = m.stack_pointer - 1 } in
    ground (arith, refill-Refilled 0 n (index + 1) (write local (index + 1) page) m')

-- Taking a page off a local stack that is not empty.
take_local-total :
    (p index : ℕ) (local : ℕ → ℕ) (m : PhyMem)
    → local 0 ≡ index
    → index ≢ 0
    → let (page, local', m') = take_local index local m in
      (total_at p index local m ≡ total p local' m' + as_int (page == p)) × (local' 0 + 1 ≡ index)
unfolding take_local
take_local-total p index local m e h = ground (
  arith,
  occurrences-last p local 1 index,
  occurrences-write_below p local 1 (index - 1) 0 (local 0 - 1),
)

-- Putting a page on a local stack.
put_local-total :
    (p page index : ℕ) (local : ℕ → ℕ) (m : PhyMem)
    → local 0 ≡ index
    → let (local', m') = put_local page index local m in
      (total p local' m' ≡ total_at p index local m + as_int (page == p)) × (local' 0 ≡ index + 1)
unfolding put_local
put_local-total p page index local m e = ground (
  arith,
  occurrences-snoc p local 1 index (index + 1) page,
  occurrences-write_below p (write local (index + 1) page) 1 (index + 1) 0 (index + 1),
)

-- The loop that gives pages away.
spill-total :
    (p n index : ℕ) (local : ℕ → ℕ) (m : PhyMem) (index' : ℕ) (m' : PhyMem)
    → n ≤ index
    → spill n index local m ≡ some (index', m')
    → (index' + n ≡ index)
      × (total_at p index' local m' ≡ total_at p index local m)
      × (m'.number_of_allocated_pages ≡ m.number_of_allocated_pages)
unfolding spill push
spill-total p zero index local m index' m' h e = ground arith
spill-total p (suc n) index local m index' m' h e = ground (
  arith,
  spill-total p n (index - 1) local (push (local index) m) index' m',
  occurrences-last p local 1 index,
  occurrences-snoc p m.stack 0 m.stack_pointer m.stack_pointer (local index),
)

-- The same for a result that is known by an equation.
taken :
    (index : ℕ) (local : ℕ → ℕ) (m : PhyMem) (page : ℕ) (local' : ℕ → ℕ) (m' : PhyMem)
    → some (take_local index local m) ≡ some (page, local', m')
    → local 0 ≡ index
    → index ≢ 0
    → ((p : ℕ) → total_at p index local m ≡ total p local' m' + as_int (page == p))
      × (local' 0 + 1 ≡ index)
taken index local m page local' m' e at ne = (
  λ p. ground (arith, take_local-total p index local m at ne),
  ground (arith, take_local-total 0 index local m at ne),
)

given :
    (page index : ℕ) (local : ℕ → ℕ) (m : PhyMem) (local' : ℕ → ℕ) (m' : PhyMem)
    → some (put_local page index local m) ≡ some (local', m')
    → local 0 ≡ index
    → ((p : ℕ) → total p local' m' ≡ total_at p index local m + as_int (page == p))
      × (local' 0 ≡ index + 1)
given page index local m local' m' e at = (
  λ p. ground (arith, put_local-total p page index local m at),
  ground (arith, put_local-total 0 page index local m at),
)

module _ (local : ℕ → ℕ) (m : PhyMem) where
  -- An allocation panics exactly when neither stack has a page.
  local_alloc_page-none :
      (local_alloc_page local m ≡ none) ↔ ((local 0 ≡ 0) × (m.stack_pointer ≡ 0))
  unfolding local_alloc_page
  local_alloc_page-none = (λ e. ground arith, λ h. ground arith)

  -- If the local stack has at most 255 pages, an allocation that gives a page takes this page once
  -- from the free ones, leaves every other free page free as often as before, and leaves at most
  -- 255 pages on the local stack.
  pub local_alloc_page-total :
      (page : ℕ) (local' : ℕ → ℕ) (m' : PhyMem)
      → local 0 ≤ 255
      → local_alloc_page local m ≡ some (page, local', m')
      → ((p : ℕ) → total p local m ≡ total p local' m' + as_int (page == p)) × (local' 0 ≤ 255)
  unfolding local_alloc_page
  local_alloc_page-total page local' m' h e = elim (Bool-cases (local 0 == 0)) [
    | inl none_left ↦ elim (Bool-cases (m.stack_pointer == 0)) [
      | inl empty ↦ absurd (cc (rw (local_alloc_page, none_left, empty) at e))
      | inr more ↦
          let r = refill 64 (local 0) local m in
          let start = refill-starts 63 (local 0) local m (ground arith) in
          let got =
            taken r.0 (write r.1 0 r.0) r.2 page local' m' (ground arith) refl (omega arith) in
          let bound = (refill-Refilled 0 64 (local 0) local m).bounded in
          (
            λ p. ground (
              arith,
              got.0 p,
              refill-Refilled p 64 (local 0) local m,
              occurrences-write_below p r.1 1 r.0 0 r.0,
            ),
            ground (arith, got.1, bound),
          )
    ]
    | inr some_left ↦
        let got = taken (local 0) local m page local' m' (ground arith) refl (ground arith) in
        (got.0, omega (arith, got.1))
  ]

  -- If the local stack has at most 255 pages, a free that does not overflow makes the page free
  -- once more, leaves every other free page as often as before, and leaves at most 255 pages on
  -- the local stack.
  pub local_free_page-total :
      (page : ℕ) (local' : ℕ → ℕ) (m' : PhyMem)
      → local 0 ≤ 255
      → local_free_page page local m ≡ some (local', m')
      → ((p : ℕ) → total p local' m' ≡ total p local m + as_int (page == p)) × (local' 0 ≤ 255)
  unfolding local_free_page
  local_free_page-total page local' m' h e = elim (Bool-cases (local 0 == 255)) [
    | inl full ↦ elim (Option-cases (spill 128 (local 0) local m)) [
      | inl over ↦ absurd (cc (rw (local_free_page, full, over) at e))
      | inr (r, q) ↦
          let got = given page r.0 (write local 0 r.0) r.1 local' m' (ground arith) refl in
          let spilled = λ (p : ℕ). spill-total p 128 (local 0) local m r.0 r.1 (ground arith) q in
          (
            λ p. ground (arith, got.0 p, spilled p, occurrences-write_below p local 1 r.0 0 r.0),
            ground (arith, got.1, spilled 0),
          )
    ]
    | inr room ↦
        let got = given page (local 0) local m local' m' (ground arith) refl in
        (got.0, ground (arith, got.1))
  ]
