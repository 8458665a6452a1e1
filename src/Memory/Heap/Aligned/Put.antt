-- ===== src/Memory/Heap/Aligned/Put.antt =====
-- The entry that `aligned_kalloc` makes, and the heap with it.
use blesk_os.Common.{
  ap, ℕ, ◌+◌, ◌-◌, ◌^◌, ◌≤◌, ◌<◌, ◌≡◌, ◌≢◌, refl, inl, inr, Bool, true, arith, Bool-cases, add32,
  sub32,
}
use blesk_os.Memory.Heap.{Heap, node_size}
use blesk_os.Memory.Heap.Valid.{IsHeap, limit, limit-bound}
use blesk_os.Memory.Heap.Insert.{
  with_entry, Inserted, Fits, Inserted-IsList, Inserted-Repaged, link-Inserted, fresh,
}
use blesk_os.Memory.Heap.Alloc.{Allocated}
use blesk_os.Memory.Heap.Free.{own_pages-Repaged}
use blesk_os.Memory.Heap.Aligned.{put_aligned, cut_block}

-- What `put_aligned` leaves: the new entry, with the free block untouched.
module _ (live : ℕ → Bool) (h : Heap) (before start size : ℕ)
    (f : Fits live h before (start - node_size) (start + size)) (deep : node_size ≤ start) where
  pub put_small : start + size < 2 ^ 32
  put_small = omega (arith, limit-bound live h before f.list f.live_before, f.under, f.list.small)

  put_aligned-Inserted :
      Inserted h (put_aligned before start size h).1 before (start - node_size) (start + size)
  unfolding put_aligned
  put_aligned-Inserted =
      let new : sub32 start node_size ≡ start - node_size = omega (arith, put_small, deep) in
      let stop : add32 (add32 (start - node_size) node_size) size ≡ start + size =
        omega (arith, put_small, deep) in
      rw (new, stop)
        (Inserted-Repaged h _ _ before (start - node_size) (start + size)
          (link-Inserted h before (start - node_size) (start + size))
          (own_pages-Repaged true (start - node_size) (start + size) _))

  put_aligned-Repaged :
      ((put_aligned before start size h).1.free_memory_start ≡ h.free_memory_start)
      × ((put_aligned before start size h).1.free_memory_size ≡ h.free_memory_size)
      × ((put_aligned before start size h).1.insert_entry ≡ h.insert_entry)
  unfolding put_aligned
  put_aligned-Repaged = let r = own_pages-Repaged true _ _ _ in (r.start, r.size, r.inserts)

  pub put_aligned-Allocated :
      IsHeap (with_entry live (start - node_size)) (put_aligned before start size h).1
      → Allocated live h size start (put_aligned before start size h).1
  put_aligned-Allocated v =
      let s = put_aligned-Inserted in
      record {
        new = start - node_size;
        behind = omega (arith, deep);
        fresh = elim (Bool-cases (live (start - node_size))) [
          | inl taken ↦
              absurd (fresh live h before (start - node_size) (start + size) _ f taken refl)
          | inr free ↦ free
        ];
        long = ground (arith, s.ends (start - node_size));
        others = λ a k.
            let apart = fresh live h before (start - node_size) (start + size) a f k in
            ground (arith, s.ends a);
        valid = v;
      }

  pub put_aligned-pointer :
      put_aligned before start size h ≡ (start, (put_aligned before start size h).1)
  unfolding put_aligned
  put_aligned-pointer =
      ap (λ p. (p, (put_aligned before start size h).1)) (omega (arith, put_small, deep))

-- The free block stays the space behind its entry when the new entry is behind another one.
pub put_elsewhere-IsHeap :
    (live : ℕ → Bool) (h : Heap) (before start size : ℕ)
    → IsHeap live h
    → Fits live h before (start - node_size) (start + size)
    → node_size ≤ start
    → h.insert_entry ≢ before
    → IsHeap (with_entry live (start - node_size)) (put_aligned before start size h).1
put_elsewhere-IsHeap live h before start size v f deep other =
    let new = start - node_size in
    let s = put_aligned-Inserted live h before start size f deep in
    let r = put_aligned-Repaged live h before start size f deep in
    let apart = fresh live h before new (start + size) h.insert_entry f v.inserts in
    record {
      list = Inserted-IsList live h _ before new (start + size) f s;
      inserts = rw r.2 (ground (arith, v.inserts));
      free_start = rw (r.0, r.2) (ground (arith, s.ends h.insert_entry, v.free_start));
      free_size =
          rw (r.0, r.1, r.2) (ground (arith, s.nexts h.insert_entry, s.memory_end, v.free_size));
    }

-- The rest of the free block, when the new entry is in it.
pub put_inside-IsHeap :
    (live : ℕ → Bool) (h : Heap) (start left size : ℕ)
    → let h1 = cut_block start left size h in
      (v : IsHeap live h)
      → Fits live h1 h.insert_entry (start - node_size) (start + size)
      → node_size ≤ start
      → start + left ≡ limit h h.insert_entry
      → IsHeap (with_entry live (start - node_size)) (put_aligned h.insert_entry start size h1).1
put_inside-IsHeap live h start left size v f deep whole =
    let h1 = cut_block start left size h in
    let before = h.insert_entry in
    let new = start - node_size in
    let s = put_aligned-Inserted live h1 before start size f deep in
    let r = put_aligned-Repaged live h1 before start size f deep in
    let small = put_small live h1 before start size f deep in
    let top = limit-bound live h before v.list v.inserts in
    let here : sub32 start node_size ≡ new = omega (arith, small, deep) in
    let up : add32 start size ≡ start + size = omega (arith, small) in
    let rest : sub32 left size ≡ left - size = omega (arith, whole, top, f.under, v.list.small) in
    record {
      list = Inserted-IsList live h1 _ before new (start + size) f s;
      inserts = rw (r.2, here) (ground arith);
      free_start = rw (r.0, r.2, here, up) (ground (arith, s.ends new));
      free_size =
          rw (r.0, r.1, r.2, here, up, rest)
            (ground (arith, s.nexts new, s.memory_end, f.under, whole));
    }
