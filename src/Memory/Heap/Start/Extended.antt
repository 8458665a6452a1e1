-- ===== src/Memory/Heap/Start/Extended.antt =====
-- An allocation that grows after the heap was extended.
use blesk_os.Common.{
  ℕ, ◌+◌, ◌-◌, ◌^◌, ◌≤◌, ◌<◌, ◌≡◌, refl, Bool, true, false, some, ◌==◌, ltb, leb, arith, add32,
  sub32, ap, ◌∙◌, le→leb, le→ltb,
}
use blesk_os.Memory.Heap.{Heap, node_size, block_size, free_space}
use blesk_os.Memory.Heap.Valid.{IsHeap}
use blesk_os.Memory.Heap.Free.{own_pages-Repaged}
use blesk_os.Memory.Heap.Realloc.{expand, krealloc}
use blesk_os.Memory.Heap.Start.{extend_heap}

-- The free block after an entry in front of it was expanded.
expand_free :
    (a new_size : ℕ) (h : Heap)
    → h.insert_entry ≡ a
    → let diff = sub32 new_size (sub32 (h.entry a).end a) in
      ((expand a new_size h).free_memory_start ≡ add32 h.free_memory_start diff)
      × ((expand a new_size h).free_memory_size ≡ sub32 h.free_memory_size diff)
unfolding expand
expand_free a new_size h inserts =
    let mine : (h.insert_entry == a) ≡ true = ground arith in
    let r = own_pages-Repaged true a (add32 a new_size) _ in (rw mine r.start, rw mine r.size)

-- On a well-formed heap whose free block is behind the last entry, after the heap was extended: a
-- request to enlarge that allocation by more bytes than the free block has, but not more than there
-- are up to the new end, is granted in place, and leaves a free block that reaches over the new end.
pub krealloc-extended :
    (live : ℕ → Bool) (h : Heap) (a size top : ℕ)
    → IsHeap live h
    → live a ≡ true
    → h.insert_entry ≡ a
    → (h.entry a).next ≡ 0
    → 0 < size
    → size < 2 ^ 32 - 15
    → top < 2 ^ 32
    → (h.entry a).end + h.free_memory_size < a + block_size size
    → a + block_size size ≤ top
    → (h' : Heap) × (krealloc (a + node_size) size (extend_heap top h) ≡ some (a + node_size, h'))
      × (top < h'.free_memory_start + h'.free_memory_size)
unfolding krealloc
krealloc-extended live h a size top v k inserts last some_bytes small word less fits =
    let need = block_size size in
    let room = v.list.room a k in
    let under = v.list.bound a k in
    let back : sub32 (a + node_size) node_size ≡ a = omega (arith, room, under, v.list.small) in
    let given : (a + node_size == 0) ≡ false = ground arith in
    let held : sub32 (h.entry a).end a ≡ (h.entry a).end - a =
      omega (arith, room, under, v.list.small) in
    let keeps : (need == node_size) ≡ false = ground arith in
    let other : (need == (h.entry a).end - a) ≡ false = ground (arith, less, room) in
    let more : ltb need ((h.entry a).end - a) ≡ false = le→ltb _ _ (omega (arith, less, room)) in
    let space : free_space (extend_heap top h) a ≡ top - (h.entry a).end =
      rw last (omega (arith, less, fits, word)) in
    let grows : leb (sub32 need ((h.entry a).end - a)) (free_space (extend_heap top h) a) ≡ true =
      le→leb _ _ (omega (arith, space, room, less, fits, word)) in
    let start : h.free_memory_start ≡ (h.entry a).end =
      v.free_start ∙ ap (λ (i : ℕ). (h.entry i).end) inserts in
    (
      expand a need (extend_heap top h),
      rw (given, back, held, keeps, other, more, grows) refl,
      omega (
        arith,
        expand_free a need (extend_heap top h) inserts,
        start,
        held,
        room,
        less,
        fits,
        word,
        v.list.small,
      ),
    )
