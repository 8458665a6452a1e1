-- ===== src/Memory/Heap/Alloc.antt =====
-- `kalloc`: what it gives was free, and it fails exactly when no free space is long enough.
use blesk_os.Common.{
  ==_iff, ltb→ge, ltb→lt, sym, ◌∙◌, ℕ, ◌+◌, ◌-◌, ◌^◌, ◌≤◌, ◌<◌, ◌≡◌, refl, ◌⊎◌, inl, inr, Bool,
  true, false, some, ltb, ◌==◌, arith, Bool-cases, add32, sub32,
}
use blesk_os.Memory.Heap.{
  Heap, node_size, link, take_block, free_space, block_size, use_block, kalloc, find_biggest,
}
use blesk_os.Memory.Heap.Valid.{
  use_space-IsHeap, Repaged, set_pages-Repaged, IsHeap, limit, limit-bound,
}
use blesk_os.Memory.Heap.Search.{Best, find_biggest-Best}
use blesk_os.Memory.Heap.Insert.{
  Inserted-Repaged, with_entry, Inserted, Fits, Inserted-IsList, fresh,
}

-- The heap of `kalloc` before the pages are mapped.
abbrev linked : ℕ → Heap → Heap
linked size h = record h {
  free_memory_start = add32 h.free_memory_start size;
  free_memory_size = sub32 h.free_memory_size size;
  insert_entry = h.free_memory_start;
  entry =
      link h.free_memory_start
        (record {
          end = add32 h.free_memory_start size;
          prev = h.insert_entry;
          next = (h.entry h.insert_entry).next;
        })
        h.entry;
}

linked-Inserted :
    (size : ℕ) (h : Heap)
    → h.free_memory_start + size < 2 ^ 32
    → Inserted h (linked size h) h.insert_entry h.free_memory_start (h.free_memory_start + size)
linked-Inserted size h small = record {
  first = refl;
  memory_end = refl;
  ends = λ i. ground arith;
  nexts = λ i. ground arith;
  prevs = λ i. ground arith;
}

take_block-Repaged : (size : ℕ) (h : Heap) → Repaged (linked size h) (take_block size h).1
unfolding take_block
take_block-Repaged size h = set_pages-Repaged true _ _ (linked size h)

-- The start of a free block with `size` bytes is a place for an entry of that length.
module _ (live : ℕ → Bool) (size : ℕ) (h : Heap) (v : IsHeap live h) (low : node_size ≤ size)
    (fit : size ≤ h.free_memory_size) where
  free_top :
      (h.free_memory_start + size ≤ limit h h.insert_entry)
      × (h.free_memory_start + h.free_memory_size < 2 ^ 32)
  free_top =
      let limits = limit-bound live h h.insert_entry v.list v.inserts in
      (omega (arith, v.free_size), omega (arith, limits, v.free_size, v.list.small))

  free-Fits : Fits live h h.insert_entry h.free_memory_start (h.free_memory_start + size)
  free-Fits = record {
    list = v.list;
    live_before = v.inserts;
    above = omega (arith, v.free_start);
    long = omega arith;
    under = free_top.0;
  }

  take_block-Inserted :
      Inserted h
        (take_block size h).1
        h.insert_entry
        h.free_memory_start
        (h.free_memory_start + size)
  take_block-Inserted =
      Inserted-Repaged h (linked size h) (take_block size h).1 h.insert_entry h.free_memory_start
        (h.free_memory_start + size) (linked-Inserted size h (omega (arith, free_top)))
        (take_block-Repaged size h)

  -- The block is taken from the free block, with the heap well formed and the block as its new entry.
  take_block-IsHeap : IsHeap (with_entry live h.free_memory_start) (take_block size h).1
  take_block-IsHeap =
      let new = h.free_memory_start in
      let h' = (take_block size h).1 in
      let r = take_block-Repaged size h in
      let s = take_block-Inserted in
      let start : h'.free_memory_start ≡ new + size = r.start ∙ omega (arith, free_top) in
      let left : h'.free_memory_size ≡ h.free_memory_size - size =
        r.size ∙ omega (arith, free_top) in
      record {
        list = Inserted-IsList live h h' h.insert_entry new (new + size) free-Fits s;
        inserts = rw r.inserts (ground arith);
        free_start = rw r.inserts (ground (arith, start, s.ends new));
        free_size =
            rw r.inserts (ground (arith, start, left, s.nexts new, s.memory_end, v.free_size));
      }

-- The pointer is behind a new entry that is long enough for `size` bytes.
pub record Allocated (live : ℕ → Bool) (h : Heap) (size pointer : ℕ) (h' : Heap) : Type 0 where
  pub new : ℕ
  pub behind : pointer ≡ new + node_size
  pub fresh : live new ≡ false
  pub long : pointer + size ≤ (h'.entry new).end
  pub others : (a : ℕ) → live a ≡ true → (h'.entry a).end ≡ (h.entry a).end
  pub valid : IsHeap (with_entry live new) h'

-- No free space has the size, and the entries are as they were.
pub record Refused (live : ℕ → Bool) (h : Heap) (size pointer : ℕ) (h' : Heap) : Type 0 where
  pub null : pointer ≡ 0
  pub short : (a : ℕ) → live a ≡ true → free_space h a < size
  pub same : h'.entry ≡ h.entry
  pub valid : IsHeap live h'

take_block-Allocated :
    (live : ℕ → Bool) (size need : ℕ) (h : Heap)
    → IsHeap live h
    → size + node_size ≤ need
    → need ≤ h.free_memory_size
    → Allocated live h size (take_block need h).0 (take_block need h).1
unfolding take_block
take_block-Allocated live size need h v long fit =
    let new = h.free_memory_start in
    let low : node_size ≤ need = omega arith in
    let s = take_block-Inserted live need h v low fit in
    let top = free_top live need h v low fit in
    let f = free-Fits live need h v low fit in
    record {
      new = new;
      behind = omega (arith, top);
      fresh = elim (Bool-cases (live new)) [
        | inl taken ↦ absurd (fresh live h h.insert_entry new (new + need) new f taken refl)
        | inr free ↦ free
      ];
      long = ground (arith, s.ends new, top);
      others = λ a k.
          let apart = fresh live h h.insert_entry new (new + need) a f k in
          ground (arith, s.ends a);
      valid = take_block-IsHeap live need h v low fit;
    }

-- What a request comes to.
abbrev pub Outcome : (ℕ → Bool) → ℕ → Heap → Type 0
Outcome live size h =
    (pointer : ℕ) × (h' : Heap) × (kalloc size h ≡ some (pointer, h'))
    × (Allocated live h size pointer h' ⊎ Refused live h (block_size size) pointer h')

-- The request when the free block is too short and the search has found `r`.
module _ (live : ℕ → Bool) (size : ℕ) (h : Heap) (r : ℕ × ℕ) (v : IsHeap live h)
    (some_bytes : 0 < size) (small : size < 2 ^ 32 - 15)
    (more : ltb h.free_memory_size (block_size size) ≡ true)
    (search : find_biggest (h.memory_end + 1) h h.first_entry 0 0 ≡ some r) where
  asks : (size == 0) ≡ false
  asks = ground arith

  kalloc_nothing : Best live h (λ a. Unit) r → r.0 ≡ 0 → Outcome live size h
  unfolding kalloc
  kalloc_nothing b null = (
    0,
    h,
    rw (asks, more, search, (==_iff r.0 0).1 null) refl,
    inr (record {
      null = refl;
      short = λ a k. omega (arith, b.most a k tt, null);
      same = refl;
      valid = v;
    }),
  )

  kalloc_found :
      Best live h (λ a. Unit) r
      → (r.0 == 0) ≡ false
      → live r.1 ≡ true
      → free_space h r.1 ≡ r.0
      → Outcome live size h
  unfolding kalloc
  kalloc_found b something k space =
      let need = block_size size in
      let h1 = use_block r.0 r.1 h in
      let w = use_space-IsHeap live h r.0 r.1 v.list k (sym space) in
      elim (Bool-cases (ltb r.0 need)) [
        | inl short ↦ (
          0,
          h1,
          rw (asks, more, search, something, short) refl,
          inr (record {
            null = refl;
            short = λ a l. omega (arith, b.most a l tt, ltb→lt _ _ short);
            same = refl;
            valid = w;
          }),
        )
        | inr enough ↦
            let block =
              take_block-Allocated live size need h1 w (omega arith) (ltb→ge _ _ enough) in
            (
              (take_block need h1).0,
              (take_block need h1).1,
              rw (asks, more, search, something, enough) refl,
              inl (record {
                new = block.new;
                behind = block.behind;
                fresh = block.fresh;
                long = block.long;
                others = block.others;
                valid = block.valid;
              }),
            )
      ]

-- On a well-formed heap a request of some bytes, which does not overflow with its entry, always comes
-- to an end: with a pointer behind a new entry that no other one overlaps, or with NULL, and NULL only
-- if no free space is as long as the request with its entry, rounded up to four bytes.
pub kalloc-cases :
    (live : ℕ → Bool) (size : ℕ) (h : Heap)
    → IsHeap live h
    → 0 < size
    → size < 2 ^ 32 - 15
    → Outcome live size h
unfolding kalloc
kalloc-cases live size h v some_bytes small =
    let need = block_size size in
    let asks : (size == 0) ≡ false = ground arith in
    elim (Bool-cases (ltb h.free_memory_size need)) [
      | inr enough ↦ (
        (take_block need h).0,
        (take_block need h).1,
        rw (asks, enough) refl,
        inl (take_block-Allocated live size need h v (omega arith) (ltb→ge _ _ enough)),
      )
      | inl more ↦
          let (r, search, b) =
            find_biggest-Best (h.memory_end + 1) live h h.first_entry 0 0 v.list v.list.first
              (omega (arith, v.list.positive))
              (record {
                found = inl refl;
                most = λ a k p. absurd (omega (arith, v.list.lowest a k));
              }) in
          elim b.found [
            | inl null ↦ kalloc_nothing live size h r v some_bytes small more search b null
            | inr (k, space) ↦ elim (Bool-cases (r.0 == 0)) [
              | inl null ↦
                  kalloc_nothing live size h r v some_bytes small more search b (ground arith)
              | inr something ↦
                  kalloc_found live size h r v some_bytes small more search b something k space
            ]
          ]
    ]
