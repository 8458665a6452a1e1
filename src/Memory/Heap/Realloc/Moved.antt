-- ===== src/Memory/Heap/Realloc/Moved.antt =====
-- An allocation that moves down, when the free block is the space that it moves into.
use blesk_os.Common.{
  le→ltb, ap, ◌∙◌, ℕ, ◌+◌, ◌-◌, ◌^◌, ◌≤◌, ◌<◌, ◌≡◌, ◌≢◌, refl, Bool, true, false, some, ◌==◌, ltb,
  leb, if◌then◌else◌, arith, Bool-cases, inl, inr, add32, sub32, le→leb, subst,
}
use blesk_os.Memory.Heap.{Heap, node_size, set_pages, free_space, block_size}
use blesk_os.Memory.Heap.Valid.{IsHeap, limit, limit-bound, free_space-limit, set_pages-Repaged}
use blesk_os.Memory.Heap.Realloc.{pages_below, pages_above, pages_behind, move_below, krealloc}

-- The free block is left as it is.
record SameFree (h h' : Heap) : Type 0 where
  start : h'.free_memory_start ≡ h.free_memory_start
  size : h'.free_memory_size ≡ h.free_memory_size

set_pages-SameFree : (v : Bool) (first last : ℕ) (h : Heap) → SameFree h (set_pages v first last h)
set_pages-SameFree v first last h =
    let r = set_pages-Repaged v first last h in record { start = r.start; size = r.size }

SameFree-trans : (h h' h'' : Heap) → SameFree h h' → SameFree h' h'' → SameFree h h''
SameFree-trans h h' h'' p q = record { start = q.start ∙ p.start; size = q.size ∙ p.size }

pages_above-SameFree :
    (old_end new_end next : ℕ) (h : Heap) → SameFree h (pages_above old_end new_end next h)
pages_above-SameFree old_end new_end next h = elim (Bool-cases (ltb old_end new_end)) [
  | inl more ↦ rw more (set_pages-SameFree true _ _ h)
  | inr less ↦ rw less (record { start = refl; size = refl })
]

pages_behind-SameFree :
    (a old_end new_end next : ℕ) (h : Heap) → SameFree h (pages_behind a old_end new_end next h)
pages_behind-SameFree a old_end new_end next h = elim (Bool-cases (ltb new_end old_end)) [
  | inl more ↦ rw more (set_pages-SameFree false _ _ h)
  | inr less ↦ rw less (record { start = refl; size = refl })
]

-- A free block that is not shorter than what is left behind the new place stays as it is.
move_below-SameFree :
    (a new_size available : ℕ) (h : Heap)
    → sub32 available new_size ≤ h.free_memory_size
    → SameFree h (move_below a new_size available h).1
unfolding move_below
move_below-SameFree a new_size available h short =
    let n = h.entry a in
    let new_start = (h.entry n.prev).end in
    let new_end = add32 new_start new_size in
    let h2 = pages_below a new_start new_end h in
    let h3 = pages_above n.end new_end n.next h2 in
    let stays : ltb h.free_memory_size (sub32 available new_size) ≡ false = le→ltb _ _ short in
    let p = set_pages-SameFree true _ _ h in
    let q = SameFree-trans h h2 h3 p (pages_above-SameFree n.end new_end n.next h2) in
    let r =
      SameFree-trans h h3 (pages_behind a n.end new_end n.next h3) q
        (pages_behind-SameFree a n.end new_end n.next h3) in
    rw stays (record { start = r.start; size = r.size })

move_below-pointer :
    (a new_size available : ℕ) (h : Heap)
    → (move_below a new_size available h).0 ≡ add32 (h.entry (h.entry a).prev).end node_size
unfolding move_below
move_below-pointer a new_size available h = refl

-- On a well-formed heap, when the free block is the space in front of an allocation, and the allocation
-- asks for more bytes than it can have where it is but not more than it can have from the start of that
-- space on: it moves to the start of the free block, and the free block still starts there and is
-- not empty, so that the two overlap.
pub krealloc-overlap :
    (live : ℕ → Bool) (h : Heap) (a size : ℕ)
    → IsHeap live h
    → live a ≡ true
    → a ≢ h.first_entry
    → h.insert_entry ≡ (h.entry a).prev
    → 0 < size
    → size < 2 ^ 32 - 15
    → limit h a < a + block_size size
    → h.free_memory_start + block_size size ≤ limit h a
    → (h' : Heap) × (krealloc (a + node_size) size h ≡ some (h'.free_memory_start + node_size, h'))
      × (0 < h'.free_memory_size)
unfolding krealloc
krealloc-overlap live h a size v k inner inserts some_bytes small short fits =
    let need = block_size size in
    let n = h.entry a in
    let prev_end = (h.entry n.prev).end in
    let available = if n.next == 0 then sub32 h.memory_end prev_end else sub32 n.next prev_end in
    let top = limit-bound live h a v.list k in
    let room = v.list.room a k in
    let back : sub32 (a + node_size) node_size ≡ a = omega (arith, room, top, v.list.small) in
    let given : (a + node_size == 0) ≡ false = ground arith in
    let held : sub32 n.end a ≡ n.end - a = omega (arith, room, top, v.list.small) in
    let keeps : (need == node_size) ≡ false = ground arith in
    let other : (need == n.end - a) ≡ false = ground (arith, top, room) in
    let more : ltb need (n.end - a) ≡ false = le→ltb _ _ (omega (arith, top, room)) in
    let whole = free_space-limit live h a v.list k in
    let stuck : leb (sub32 need (n.end - a)) (free_space h a) ≡ false =
      ground (arith, whole, top, room, v.list.small) in
    let below = v.list.prev_live a k inner in
    let start : h.free_memory_start ≡ prev_end =
      subst (λ (i : ℕ). h.free_memory_start ≡ (h.entry i).end) inserts v.free_start in
    let size_before =
      subst (λ (i : ℕ). h.free_memory_start + h.free_memory_size ≡ limit h i) inserts v.free_size in
    let gap : h.free_memory_start + h.free_memory_size ≡ a =
      ground (arith, size_before, below.1, v.list.positive, v.list.lowest a k) in
    let space : available ≡ limit h a - h.free_memory_start =
      ground (arith, start, top, room, v.list.small) in
    let moves : leb need available ≡ true = le→leb _ _ (omega (arith, space)) in
    let s = move_below-SameFree a need available h (omega (arith, space, top, v.list.small)) in
    (
      (move_below a need available h).1,
      rw (given, back, held, keeps, other, more, stuck, moves)
          (ap (λ p. some (p, (move_below a need available h).1))
            (move_below-pointer a need available h
              ∙ omega (arith, start, s.start, gap, room, top, v.list.small))),
      omega (arith, s.size, gap),
    )
