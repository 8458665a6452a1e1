-- ===== src/Memory/Heap/Valid.antt =====
-- When the list of entries is well formed: an account of it by the set of the entries it has.
use blesk_os.Common.{
  ap, ◌∙◌, leb, refl, ℕ, ◌+◌, ◌^◌, ◌≤◌, ◌<◌, ◌≡◌, ◌≢◌, Bool, true, ◌==◌, if◌then◌else◌, arith,
  Bool-cases, inl, inr,
}
use blesk_os.Memory.Heap.{Heap, node_size, free_space, set_pages}

-- The end of the space behind an entry.
abbrev pub limit : Heap → ℕ → ℕ
limit h a = if (h.entry a).next == 0 then h.memory_end else (h.entry a).next

-- `live` marks the addresses of the entries. Each one has room for itself before its end, no two
-- overlap, the first one is the lowest, and the pointers lead from each one to the next higher one
-- and back.
pub record IsList (live : ℕ → Bool) (h : Heap) : Type 0 where
  pub small : h.memory_end < 2 ^ 32
  pub first : live h.first_entry ≡ true
  pub positive : 0 < h.first_entry
  pub lowest : (a : ℕ) → live a ≡ true → h.first_entry ≤ a
  pub room : (a : ℕ) → live a ≡ true → a + node_size ≤ (h.entry a).end
  pub bound : (a : ℕ) → live a ≡ true → (h.entry a).end ≤ h.memory_end
  pub apart : (a b : ℕ) → live a ≡ true → live b ≡ true → a < b → (h.entry a).end ≤ b
  pub next_live :
      (a : ℕ)
      → live a ≡ true
      → (h.entry a).next ≢ 0
      → (live (h.entry a).next ≡ true)
        × (a < (h.entry a).next)
        × ((h.entry (h.entry a).next).prev ≡ a)
  pub next_least :
      (a b : ℕ)
      → live a ≡ true
      → live b ≡ true
      → a < b
      → ((h.entry a).next ≢ 0) × ((h.entry a).next ≤ b)
  pub prev_live :
      (a : ℕ)
      → live a ≡ true
      → a ≢ h.first_entry
      → (live (h.entry a).prev ≡ true) × ((h.entry (h.entry a).prev).next ≡ a)

-- The heap is well formed: also, the free block is the space behind an entry.
pub record IsHeap (live : ℕ → Bool) (h : Heap) : Type 0 where
  pub list : IsList live h
  pub inserts : live h.insert_entry ≡ true
  pub free_start : h.free_memory_start ≡ (h.entry h.insert_entry).end
  pub free_size : h.free_memory_start + h.free_memory_size ≡ limit h h.insert_entry

-- In a list the space behind an entry is what lies between its end and the limit.
pub free_space-limit :
    (live : ℕ → Bool) (h : Heap) (a : ℕ)
    → IsList live h
    → live a ≡ true
    → (h.entry a).end + free_space h a ≡ limit h a
free_space-limit live h a l e = elim (Bool-cases ((h.entry a).next == 0)) [
  | inl last ↦ rw last (omega (arith, l.bound a e, l.small))
  | inr more ↦
      let up = l.next_live a e (ground arith) in
      let below = l.apart a (h.entry a).next e up.0 up.1 in
      let inside = l.room (h.entry a).next up.0 in
      let under = l.bound (h.entry a).next up.0 in
      rw more (omega (arith, below, inside, under, l.small))
]

-- The limit of an entry is within the heap.
pub limit-bound :
    (live : ℕ → Bool) (h : Heap) (a : ℕ)
    → IsList live h
    → live a ≡ true
    → ((h.entry a).end ≤ limit h a) × (limit h a ≤ h.memory_end)
limit-bound live h a l e = elim (Bool-cases ((h.entry a).next == 0)) [
  | inl last ↦ rw last (l.bound a e, omega arith)
  | inr more ↦
      let up = l.next_live a e (ground arith) in
      let inside = l.room (h.entry a).next up.0 in
      let under = l.bound (h.entry a).next up.0 in
      rw more (l.apart a (h.entry a).next e up.0 up.1, omega (arith, inside, under))
]

-- Mapping pages changes nothing but which pages are mapped.
pub record Repaged (h h' : Heap) : Type 0 where
  pub first : h'.first_entry ≡ h.first_entry
  pub memory_end : h'.memory_end ≡ h.memory_end
  pub start : h'.free_memory_start ≡ h.free_memory_start
  pub size : h'.free_memory_size ≡ h.free_memory_size
  pub inserts : h'.insert_entry ≡ h.insert_entry
  pub entry : h'.entry ≡ h.entry

pub set_pages-Repaged :
    (v : Bool) (first last : ℕ) (h : Heap) → Repaged h (set_pages v first last h)
unfolding set_pages
set_pages-Repaged v first last h = elim (Bool-cases (leb first last)) [
  | inl some_pages ↦ rw some_pages (record {
    first = refl;
    memory_end = refl;
    start = refl;
    size = refl;
    inserts = refl;
    entry = refl;
  })
  | inr no_pages ↦ rw no_pages (record {
    first = refl;
    memory_end = refl;
    start = refl;
    size = refl;
    inserts = refl;
    entry = refl;
  })
]

-- The free block plays no part in the list.
pub IsList-free :
    (live : ℕ → Bool) (h : Heap) (start size who : ℕ)
    → IsList live h
    → IsList live
        (record h { free_memory_start = start; free_memory_size = size; insert_entry = who })
IsList-free live h start size who l = record {
  small = l.small;
  first = l.first;
  positive = l.positive;
  lowest = l.lowest;
  room = l.room;
  bound = l.bound;
  apart = l.apart;
  next_live = l.next_live;
  next_least = l.next_least;
  prev_live = l.prev_live;
}

-- The space behind any entry can be the free block.
pub use_space-IsHeap :
    (live : ℕ → Bool) (h : Heap) (space who : ℕ)
    → IsList live h
    → live who ≡ true
    → space ≡ free_space h who
    → IsHeap live (record h {
      free_memory_start = (h.entry who).end;
      free_memory_size = space;
      insert_entry = who;
    })
use_space-IsHeap live h space who l k e = record {
  list = IsList-free live h (h.entry who).end space who l;
  inserts = k;
  free_start = refl;
  free_size = ap (λ s. (h.entry who).end + s) e ∙ free_space-limit live h who l k;
}

-- Which pages are mapped plays no part in it.
pub set_pages-IsHeap :
    (live : ℕ → Bool) (v : Bool) (first last : ℕ) (h : Heap)
    → IsHeap live h
    → IsHeap live (set_pages v first last h)
unfolding set_pages
set_pages-IsHeap live v first last h w = elim (Bool-cases (leb first last)) [
  | inl some_pages ↦ rw some_pages (record {
    list = record {
      small = w.list.small;
      first = w.list.first;
      positive = w.list.positive;
      lowest = w.list.lowest;
      room = w.list.room;
      bound = w.list.bound;
      apart = w.list.apart;
      next_live = w.list.next_live;
      next_least = w.list.next_least;
      prev_live = w.list.prev_live;
    };
    inserts = w.inserts;
    free_start = w.free_start;
    free_size = w.free_size;
  })
  | inr no_pages ↦ rw no_pages w
]
