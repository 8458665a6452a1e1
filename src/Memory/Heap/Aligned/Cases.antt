-- ===== src/Memory/Heap/Aligned/Cases.antt =====
-- `aligned_kalloc`: what it gives was free and is aligned, and it fails exactly when no free space has
-- an aligned place that is long enough.
use blesk_os.Common.{
  sym, ap, ap₂, ◌∙◌, ℕ, ◌+◌, ◌-◌, ◌%◌, ◌^◌, ◌≤◌, ◌<◌, ◌≡◌, ◌≢◌, refl, ◌⊎◌, inl, inr, Bool, true,
  false, some, ◌==◌, arith, Bool-cases, leb,
}
use blesk_os.Memory.Heap.{Heap, node_size, free_space}
use blesk_os.Memory.Heap.Valid.{IsList-free, IsHeap, limit, limit-bound, free_space-limit}
use blesk_os.Memory.Heap.Insert.{Fits}
use blesk_os.Memory.Heap.Alloc.{Allocated}
use blesk_os.Memory.Heap.Aligned.{aligned_place, put_aligned, cut_block, aligned_kalloc}
use blesk_os.Memory.Heap.Aligned.Place.{Decided, aligned_place-Decided}
use blesk_os.Memory.Heap.Aligned.First.{place_at, find_place-FirstPlace}
use blesk_os.Memory.Heap.Aligned.Put.{
  put_aligned-Allocated, put_aligned-pointer, put_elsewhere-IsHeap, put_inside-IsHeap,
}

-- The pointer is aligned, and behind a new entry that is long enough; or it is NULL, the heap is as it
-- was, and no aligned place is long enough.
abbrev pub AlignedOutcome : (ℕ → Bool) → ℕ → ℕ → Heap → Type 0
AlignedOutcome live k size h =
    (pointer : ℕ) × (h' : Heap) × (aligned_kalloc (2 ^ k) size h ≡ some (pointer, h'))
    × (((pointer % 2 ^ k ≡ 0) × Allocated live h size pointer h')
        ⊎ ((pointer ≡ 0)
            × (h' ≡ h)
            × ((a p : ℕ)
                → live a ≡ true
                → p % 2 ^ k ≡ 0
                → (h.entry a).end + node_size ≤ p
                → limit h a < p + size)))

module _ (live : ℕ → Bool) (k size : ℕ) (h : Heap) (v : IsHeap live h) (wide : 8 ≤ 2 ^ k)
    (some_bytes : 0 < size) where
  -- What the place behind an entry says.
  place-Decided :
      (a : ℕ)
      → live a ≡ true
      → let r = place_at (2 ^ k) size h a in
        Decided (2 ^ k) size ((h.entry a).end + node_size) (limit h a) r.0 r.1 r.2
  place-Decided a e =
      let space = free_space-limit live h a v.list e in
      let top = limit-bound live h a v.list e in
      let r =
        aligned_place-Decided k size (h.entry a).end (free_space h a) (omega (arith, wide))
          (omega (arith, space, top, v.list.small)) in
      rw space at r

  -- The free block is the space behind its entry.
  block-place :
      aligned_place (2 ^ k) size h.free_memory_start h.free_memory_size
      ≡ place_at (2 ^ k) size h h.insert_entry
  block-place =
      let space = free_space-limit live h h.insert_entry v.list v.inserts in
      ap₂ (λ x y. aligned_place (2 ^ k) size x y) v.free_start
        (omega (arith, space, v.free_start, v.free_size))

  -- The free block has a place.
  aligned_inside : (place_at (2 ^ k) size h h.insert_entry).0 ≡ true → AlignedOutcome live k size h
  unfolding aligned_kalloc
  aligned_inside inside =
      let before = h.insert_entry in
      let r = place_at (2 ^ k) size h before in
      let h1 = cut_block r.1 r.2 size h in
      let asks : (size == 0) ≡ false = ground arith in
      let low : leb (2 ^ k) 4 ≡ false = ground arith in
      let d = (place-Decided before v.inserts).0 inside in
      let deep : node_size ≤ r.1 = omega (arith, d.1) in
      let f : Fits live h1 before (r.1 - node_size) (r.1 + size) = record {
        list = IsList-free live h _ _ _ v.list;
        live_before = v.inserts;
        above = omega (arith, d.1);
        long = omega (arith, deep, some_bytes);
        under = d.2;
      } in
      let w = put_inside-IsHeap live h r.1 r.2 size v f deep d.3 in
      let block = put_aligned-Allocated live h1 before r.1 size f deep w in
      (
        r.1,
        (put_aligned before r.1 size h1).1,
        rw (asks, low, block-place, inside)
            (ap some (put_aligned-pointer live h1 before r.1 size f deep)),
        inl (
          d.0,
          record {
            new = block.new;
            behind = block.behind;
            fresh = block.fresh;
            long = block.long;
            others = block.others;
            valid = block.valid;
          },
        ),
      )

  -- The free block has none.
  aligned_outside :
      (place_at (2 ^ k) size h h.insert_entry).0 ≡ false → AlignedOutcome live k size h
  unfolding aligned_kalloc
  aligned_outside outside =
      let asks : (size == 0) ≡ false = ground arith in
      let low : leb (2 ^ k) 4 ≡ false = ground arith in
      elim (find_place-FirstPlace (h.memory_end + 1) live (2 ^ k) size h h.first_entry v.list
        v.list.first (omega (arith, v.list.positive))
        (λ a e lt. absurd (omega (arith, v.list.lowest a e)))) [
          | inr (search, full) ↦ (
            0,
            h,
            rw (asks, low, block-place, outside, search) refl,
            inr (refl, refl, λ a p e even above. (place-Decided a e).1 (full a e) p even above),
          )
          | inl (who, search, e, here) ↦
              let r = place_at (2 ^ k) size h who in
              let d = (place-Decided who e).0 here in
              let deep : node_size ≤ r.1 = omega (arith, d.1) in
              let f : Fits live h who (r.1 - node_size) (r.1 + size) = record {
                list = v.list;
                live_before = e;
                above = omega (arith, d.1);
                long = omega (arith, deep, some_bytes);
                under = d.2;
              } in
              let other : h.insert_entry ≢ who = λ same. absurd (
                let both : false ≡ true =
                  sym outside ∙ ap (λ (i : ℕ). (place_at (2 ^ k) size h i).0) same ∙ here in
                ground (arith, both)) in
              let w = put_elsewhere-IsHeap live h who r.1 size v f deep other in
              (
                r.1,
                (put_aligned who r.1 size h).1,
                rw (asks, low, block-place, outside, search)
                    (ap some (put_aligned-pointer live h who r.1 size f deep)),
                inl (d.0, put_aligned-Allocated live h who r.1 size f deep w),
              )
        ]

-- On a well-formed heap a request of some bytes at an alignment to a power of two, from 8 on, always
-- comes to an end: with an aligned pointer behind a new entry that no other one overlaps, or with NULL,
-- and NULL only if no free space has the bytes at an aligned address with space for the entry below.
pub aligned_kalloc-cases :
    (live : ℕ → Bool) (k size : ℕ) (h : Heap)
    → IsHeap live h
    → 8 ≤ 2 ^ k
    → 0 < size
    → AlignedOutcome live k size h
aligned_kalloc-cases live k size h v wide some_bytes =
    elim (Bool-cases (place_at (2 ^ k) size h h.insert_entry).0) [
      | inl inside ↦ aligned_inside live k size h v wide some_bytes inside
      | inr outside ↦ aligned_outside live k size h v wide some_bytes outside
    ]
