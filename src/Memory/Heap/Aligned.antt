-- ===== src/Memory/Heap/Aligned.antt =====
-- `aligned_kalloc` of kernel/hardware/devices/memory/memory_allocators.c.
pub mod Place
pub mod First
pub mod Put
pub mod Cases
use blesk_os.Common.{
  ℕ, zero, suc, ◌+◌, ◌-◌, bit_and, Bool, true, false, ◌&&◌, Option, none, some, ◌==◌, ltb, leb,
  if◌then◌else◌, add32, sub32,
}
use blesk_os.Memory.Heap.{Node, Heap, node_size, free_space, link, own_pages, kalloc}

-- `free_size_until_alignment`.
abbrev pub until_alignment : ℕ → ℕ → ℕ
until_alignment alignment start =
    if bit_and start (alignment - 1) == 0 then 0 else alignment - bit_and start (alignment - 1)

-- The loop that skips crossings of the alignment until there is space for the `metadata` bytes that
-- are left of the entry: whether the space is long enough, where it is left, and how much of it.
unfoldable pub skip_crossings : ℕ → ℕ → ℕ → ℕ → ℕ → Bool × ℕ × ℕ
skip_crossings zero alignment metadata start space = (false, start, space)
skip_crossings (suc fuel) alignment metadata start space =
    let rest =
      skip_crossings fuel alignment (metadata - alignment) (add32 start alignment)
        (space - alignment) in
    if ltb space alignment
    then (false, start, space)
    else if ltb alignment metadata
    then rest
    else (true, add32 start alignment, space - alignment)

-- Whether `size` bytes fit into a space at an aligned address with their entry below it, that address,
-- and the space from there on.
unfoldable pub aligned_place : ℕ → ℕ → ℕ → ℕ → Bool × ℕ × ℕ
aligned_place alignment size start space =
    let until = until_alignment alignment start in
    let crossing = add32 start until in
    let left = sub32 space until in
    let place =
      if ltb until node_size
      then skip_crossings node_size alignment (node_size - until) crossing left
      else (true, crossing, left) in
    (leb until space && (place.0 && leb size place.2), place.1, place.2)

-- The loop for the first entry with such a place behind it, from `current` on: whether there is one,
-- the entry and the place; `none` is the end of the fuel.
unfoldable pub find_place : ℕ → ℕ → ℕ → Heap → ℕ → Option (Bool × ℕ × ℕ)
find_place zero alignment size h current = none
find_place (suc fuel) alignment size h current =
    let place = aligned_place alignment size (h.entry current).end (free_space h current) in
    let rest = find_place fuel alignment size h (h.entry current).next in
    if current == 0
    then some (false, 0, 0)
    else if place.0
    then some (true, current, place.1)
    else rest

-- The new entry below `start`, behind `before`, with its pages.
unfoldable pub put_aligned : ℕ → ℕ → ℕ → Heap → ℕ × Heap
put_aligned before start size h =
    let new = sub32 start node_size in
    let n : Node = record {
      end = add32 (add32 new node_size) size;
      prev = before;
      next = (h.entry before).next;
    } in
    (add32 new node_size, own_pages true new n.end (record h { entry = link new n h.entry }))

-- The free block after `size` bytes at `start` are taken from it, with `left` bytes from there on.
abbrev pub cut_block : ℕ → ℕ → ℕ → Heap → Heap
cut_block start left size h = record h {
  free_memory_start = add32 start size;
  free_memory_size = sub32 left size;
  insert_entry = sub32 start node_size;
}

-- `aligned_kalloc`: the pointer and the new heap; `none` is the end of the fuel.
unfoldable pub aligned_kalloc : ℕ → ℕ → Heap → Option (ℕ × Heap)
aligned_kalloc alignment size h =
    let place = aligned_place alignment size h.free_memory_start h.free_memory_size in
    if size == 0
    then some (0, h)
    else if leb alignment 4
    then kalloc size h
    else if place.0
    then some (put_aligned h.insert_entry place.1 size (cut_block place.1 place.2 size h))
    else elim (find_place (h.memory_end + 1) alignment size h h.first_entry) [
      | none ↦ none
      | some (found, who, start) ↦
          if found then some (put_aligned who start size h) else some (0, h)
    ]
