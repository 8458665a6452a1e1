-- ===== src/Memory/Heap/Free.antt =====
-- `kfree` takes an entry out of the list.
use blesk_os.Common.{
  subst, ap, sym, ◌∙◌, ℕ, ◌+◌, ◌^◌, ◌≤◌, ◌<◌, ◌≡◌, ◌≢◌, refl, Bool, true, false, not, ◌&&◌, ◌==◌,
  ltb, if◌then◌else◌, arith, Bool-cases, inl, inr, sub32,
}
use blesk_os.Memory.Heap.{Heap, node_size, unlink, own_pages, offer_space, kfree, free_space}
use blesk_os.Memory.Heap.Valid.{
  use_space-IsHeap, free_space-limit, IsList, IsHeap, limit, limit-bound, Repaged,
  set_pages-Repaged,
}

-- The set of entries without one.
abbrev pub without_entry : (ℕ → Bool) → ℕ → ℕ → Bool
without_entry live a i = if i == a then false else live i

-- `h'` has the entries of `h` but for the one at `a`.
record Removed (h h' : Heap) (a : ℕ) : Type 0 where
  first : h'.first_entry ≡ h.first_entry
  memory_end : h'.memory_end ≡ h.memory_end
  ends : (i : ℕ) → (h'.entry i).end ≡ (h.entry i).end
  nexts :
      (i : ℕ)
      → (h'.entry i).next ≡ (if i == (h.entry a).prev then (h.entry a).next else (h.entry i).next)
  prevs :
      (i : ℕ)
      → (h'.entry i).prev ≡ (
          if not ((h.entry a).next == 0) && (i == (h.entry a).next)
          then (h.entry a).prev
          else (h.entry i).prev)

module _ (live : ℕ → Bool) (h h' : Heap) (a : ℕ) (l : IsList live h) (k : live a ≡ true)
    (inner : a ≢ h.first_entry) (s : Removed h h' a) where
  -- The entry before `a`.
  before :
      (live (h.entry a).prev ≡ true)
      × ((h.entry (h.entry a).prev).next ≡ a)
      × ((h.entry a).prev < a)
  before =
      let back = l.prev_live a k inner in
      let up =
        l.next_live (h.entry a).prev back.0 (ground (arith, back.1, l.positive, l.lowest a k)) in
      (back.0, back.1, ground (arith, up.1, back.1))

  removed-next_live :
      (i : ℕ)
      → without_entry live a i ≡ true
      → (h'.entry i).next ≢ 0
      → (without_entry live a (h'.entry i).next ≡ true)
        × (i < (h'.entry i).next)
        × ((h'.entry (h'.entry i).next).prev ≡ i)
  removed-next_live i m n = elim (Bool-cases (i == (h.entry a).prev)) [
    | inl low ↦
        let next : (h'.entry i).next ≡ (h.entry a).next = ground (arith, s.nexts i) in
        let up = l.next_live a k (ground arith) in
        let below = before.2 in
        rw next (
          ground (arith, up),
          ground (arith, up.1, below),
          ground (arith, s.prevs (h.entry a).next),
        )
    | inr other ↦
        let old : live i ≡ true = ground arith in
        let self : i ≢ a = ground arith in
        let next : (h'.entry i).next ≡ (h.entry i).next = ground (arith, s.nexts i) in
        let up = l.next_live i old (ground arith) in
        let distinct : (h.entry i).next ≢ a = λ e.
          let p : (h.entry a).prev ≡ i = ap (λ j. (h.entry j).prev) (sym e) ∙ up.2 in
          absurd (ground arith) in
        let unshared : (h.entry a).next ≢ 0 → (h.entry i).next ≢ (h.entry a).next = λ z e.
          let q = l.next_live a k z in self (sym up.2 ∙ ap (λ j. (h.entry j).prev) e ∙ q.2) in
        rw next (ground (arith, up.0), up.1, ground (arith, s.prevs (h.entry i).next, up.2))
  ]

  removed-next_least :
      (i b : ℕ)
      → without_entry live a i ≡ true
      → without_entry live a b ≡ true
      → i < b
      → ((h'.entry i).next ≢ 0) × ((h'.entry i).next ≤ b)
  removed-next_least i b m n lt =
      ground (arith, s.nexts i, l.next_least i b, l.next_least a b k, before.1)

  removed-prev_live :
      (i : ℕ)
      → without_entry live a i ≡ true
      → i ≢ h'.first_entry
      → (without_entry live a (h'.entry i).prev ≡ true) × ((h'.entry (h'.entry i).prev).next ≡ i)
  removed-prev_live i m n =
      let old : live i ≡ true = ground arith in
      let self : i ≢ a = ground arith in
      let positive : 0 < i = ground (arith, l.positive, l.lowest i old) in
      let back = l.prev_live i old (ground (arith, s.first)) in
      elim (Bool-cases (i == (h.entry a).next)) [
        | inl high ↦
            let prev : (h'.entry i).prev ≡ (h.entry a).prev = ground (arith, s.prevs i) in
            rw prev (ground (arith, before), ground (arith, s.nexts (h.entry a).prev))
        | inr other ↦
            let prev : (h'.entry i).prev ≡ (h.entry i).prev = ground (arith, s.prevs i) in
            let distinct : (h.entry i).prev ≢ a = λ e.
              let p : (h.entry a).next ≡ i = ap (λ j. (h.entry j).next) (sym e) ∙ back.1 in
              absurd (ground arith) in
            let unshared : (h.entry i).prev ≢ (h.entry a).prev =
              λ e. self (sym back.1 ∙ ap (λ j. (h.entry j).next) e ∙ before.1) in
            rw prev (ground (arith, back.0), ground (arith, s.nexts (h.entry i).prev, back.1))
      ]

  -- The list without the entry is well formed.
  Removed-IsList : IsList (without_entry live a) h'
  Removed-IsList = record {
    small = rw s.memory_end l.small;
    first = ground (arith, s.first, l.first);
    positive = ground (arith, s.first, l.positive);
    lowest = λ i m. ground (arith, s.first, l.lowest i);
    room = λ i m. ground (arith, s.ends i, l.room i);
    bound = λ i m. ground (arith, s.ends i, s.memory_end, l.bound i);
    apart = λ i b m n lt. ground (arith, s.ends i, l.apart i b);
    next_live = removed-next_live;
    next_least = removed-next_least;
    prev_live = removed-prev_live;
  }

pub own_pages-Repaged :
    (v : Bool) (entry stop : ℕ) (h : Heap) → Repaged h (own_pages v entry stop h)
unfolding own_pages
own_pages-Repaged v entry stop h = set_pages-Repaged v _ _ h

offer_space-entry :
    (who start space : ℕ) (h : Heap) → (offer_space who start space h).entry ≡ h.entry
offer_space-entry who start space h = elim (Bool-cases (ltb h.free_memory_size space)) [
  | inl longer ↦ rw longer refl
  | inr shorter ↦ rw shorter refl
]

-- The list without the entry at `a`, before the free block is looked at.
abbrev unlinked : ℕ → Heap → Heap
unlinked a h =
    let h1 = own_pages false a (h.entry a).end h in
    record h1 { entry = unlink (h.entry a) h1.entry }

unlinked-Removed : (a : ℕ) (h : Heap) → Removed h (unlinked a h) a
unlinked-Removed a h =
    let r = own_pages-Repaged false a (h.entry a).end h in
    record {
      first = r.first;
      memory_end = r.memory_end;
      ends = λ i. rw r.entry (ground arith);
      nexts = λ i. rw r.entry (ground arith);
      prevs = λ i. rw r.entry (ground arith);
    }

-- The heap after the free block is looked at.
module _ (live : ℕ → Bool) (h : Heap) (a : ℕ) (v : IsHeap live h) (k : live a ≡ true)
    (inner : a ≢ h.first_entry) where
  abbrev h2 : Heap
  h2 = unlinked a h

  abbrev low : ℕ
  low = (h.entry a).prev

  rest : IsList (without_entry live a) h2
  rest = Removed-IsList live h h2 a v.list k inner (unlinked-Removed a h)

  low_live : without_entry live a low ≡ true
  low_live =
      let b = before live h h2 a v.list k inner (unlinked-Removed a h) in ground (arith, b.0, b.2)

  -- The space that is offered is the one behind the entry before.
  offered :
      (if (h.entry a).next == 0
        then sub32 h2.memory_end (h2.entry low).end
        else sub32 (h.entry a).next (h2.entry low).end)
      ≡ free_space h2 low
  offered = ground (arith, (unlinked-Removed a h).nexts low)

  -- A free block that is not shorter lies behind another entry and stays as it is.
  kept :
      free_space h2 low ≤ h.free_memory_size
      → (without_entry live a h.insert_entry ≡ true)
        × (h.free_memory_start ≡ (h2.entry h.insert_entry).end)
        × (h.free_memory_start + h.free_memory_size ≡ limit h2 h.insert_entry)
  kept short =
      let s = unlinked-Removed a h in
      let b = before live h h2 a v.list k inner s in
      let whole = free_space-limit (without_entry live a) h2 low rest low_live in
      let below = v.list.apart low a b.0 k b.2 in
      let mine = v.list.room a k in
      let top = limit-bound live h a v.list k in
      let ends = s.ends low in
      let nexts = s.nexts low in
      let other : h.insert_entry ≢ a = λ e. absurd (
        ground (
          arith,
          whole,
          below,
          mine,
          top,
          ends,
          nexts,
          s.memory_end,
          subst (λ (i : ℕ). h.free_memory_start ≡ (h.entry i).end) e v.free_start,
          subst (λ (i : ℕ). h.free_memory_start + h.free_memory_size ≡ limit h i) e v.free_size,
        )) in
      let higher : h.insert_entry ≢ low = λ e. absurd (
        ground (
          arith,
          whole,
          below,
          mine,
          top,
          ends,
          nexts,
          b.1,
          s.memory_end,
          subst (λ (i : ℕ). h.free_memory_start ≡ (h.entry i).end) e v.free_start,
          subst (λ (i : ℕ). h.free_memory_start + h.free_memory_size ≡ limit h i) e v.free_size,
        )) in
      (
        ground (arith, v.inserts),
        ground (arith, v.free_start, s.ends h.insert_entry),
        ground (arith, v.free_size, s.nexts h.insert_entry, s.memory_end),
      )

  -- A longer space becomes the free block, and a shorter one leaves it.
  offered-IsHeap :
      (space : ℕ)
      → space ≡ free_space h2 low
      → IsHeap (without_entry live a) (offer_space low (h2.entry low).end space h2)
  offered-IsHeap space e = elim (Bool-cases (ltb h2.free_memory_size space)) [
    | inl longer ↦ rw longer (use_space-IsHeap (without_entry live a) h2 space low rest low_live e)
    | inr shorter ↦
        let r = own_pages-Repaged false a (h.entry a).end h in
        let old = kept (ground (arith, r.size)) in
        rw shorter (record {
          list = rest;
          inserts = rw r.inserts old.0;
          free_start = rw (r.start, r.inserts) old.1;
          free_size = rw (r.start, r.size, r.inserts) old.2;
        })
  ]

-- Freeing an allocation of a well-formed heap, not the first entry, takes exactly its entry out of the
-- list: the heap stays well formed, and no other entry changes its place or its end.
pub kfree-IsHeap :
    (live : ℕ → Bool) (h : Heap) (a : ℕ)
    → IsHeap live h
    → live a ≡ true
    → a ≢ h.first_entry
    → IsHeap (without_entry live a) (kfree (a + node_size) h)
      × ((i : ℕ) → ((kfree (a + node_size) h).entry i).end ≡ (h.entry i).end)
unfolding kfree
kfree-IsHeap live h a v k inner =
    let small : a + node_size < 2 ^ 32 =
      omega (arith, v.list.room a k, v.list.bound a k, v.list.small) in
    let back : sub32 (a + node_size) node_size ≡ a = omega arith in
    let given : (a + node_size == 0) ≡ false = ground arith in
    let e = offered live h a v k inner in
    let s = unlinked-Removed a h in
    rw (given, back)
      (
        offered-IsHeap live h a v k inner _ e,
        λ i. ap (λ f. (f i).end) (offer_space-entry _ _ _ (unlinked a h)) ∙ s.ends i,
      )
