-- ===== src/Memory/Heap/Realloc.antt =====
-- `krealloc` of kernel/hardware/devices/memory/memory_allocators.c. The copy of the bytes is left out,
-- but for the entry that `memmove` moves with them.
pub mod InPlace
pub mod Moved
use blesk_os.Common.{
  ℕ, ◌+◌, ◌-◌, Bool, true, false, not, ◌&&◌, ◌||◌, Option, none, some, ◌==◌, ltb, leb,
  if◌then◌else◌, add32, sub32,
}
use blesk_os.Memory.Pages.{page_size, page_mask, page_offset}
use blesk_os.Memory.Heap.{
  Node, Heap, node_size, put_node, set_pages, free_space, own_pages, offer_space, block_size,
  kalloc, kfree,
}

-- The first page that starts at an address or above it.
abbrev pub page_up : ℕ → ℕ
page_up x = add32 (page_mask x) (if page_offset x == 0 then 0 else page_size)

abbrev pub set_end : ℕ → ℕ → Heap → Heap
set_end a stop h = record h { entry = put_node h.entry a (record (h.entry a) { end = stop }) }

-- The branch for a shorter allocation.
unfoldable pub shrink : ℕ → ℕ → Heap → Heap
shrink a new_size h =
    let n = h.entry a in
    let new_end = add32 a new_size in
    let h1 = set_end a new_end h in
    let space = if n.next == 0 then sub32 h.memory_end new_end else sub32 n.next new_end in
    let h2 = offer_space a new_end space h1 in
    let last = page_mask (sub32 n.end 1) in
    let first_of_next = if n.next == 0 then 0 else page_mask n.next in
    set_pages false (page_up new_end) (if last == first_of_next then sub32 last page_size else last)
      h2

-- The branch for a longer allocation that grows into the space behind it.
unfoldable pub expand : ℕ → ℕ → Heap → Heap
expand a new_size h =
    let size_diff = sub32 new_size (sub32 (h.entry a).end a) in
    let new_end = add32 a new_size in
    let h1 = set_end a new_end h in
    let h2 =
      if h1.insert_entry == a
      then record h1 {
        free_memory_start = add32 h1.free_memory_start size_diff;
        free_memory_size = sub32 h1.free_memory_size size_diff;
      }
      else h1 in
    own_pages true a new_end h2

-- The pages below the old place of an allocation that moves down.
abbrev pub pages_below : ℕ → ℕ → ℕ → Heap → Heap
pages_below a new_start new_end h =
    let last = page_mask (sub32 new_end 1) in
    set_pages true (page_up new_start)
      (if ltb (sub32 new_end 1) a
        then (if last == page_mask a then sub32 last page_size else last)
        else sub32 (page_mask a) page_size)
      h

-- The pages above the old end.
abbrev pub pages_above : ℕ → ℕ → ℕ → Heap → Heap
pages_above old_end new_end next h =
    let last = page_mask (sub32 new_end 1) in
    if ltb old_end new_end
    then set_pages true (page_up old_end)
        (if not (next == 0) && (page_mask next == last) then sub32 last page_size else last) h
    else h

-- The pages behind the new end that have no use any more.
abbrev pub pages_behind : ℕ → ℕ → ℕ → ℕ → Heap → Heap
pages_behind a old_end new_end next h =
    let first = page_up new_end in
    let last = page_mask (sub32 old_end 1) in
    if ltb new_end old_end
    then set_pages false (if ltb first (page_mask a) then page_mask a else first)
        (if (page_mask new_end == last) || (not (next == 0) && (page_mask next == last))
          then sub32 last page_size
          else last)
        h
    else h

-- The branch in which the allocation moves down to the end of the one before it.
unfoldable pub move_below : ℕ → ℕ → ℕ → Heap → ℕ × Heap
move_below a new_size available h =
    let n = h.entry a in
    let new_start = (h.entry n.prev).end in
    let new_end = add32 new_start new_size in
    let h1 = offer_space a new_end (sub32 available new_size) h in
    let h2 = pages_below a new_start new_end h1 in
    let h3 = pages_above n.end new_end n.next h2 in
    let h4 = pages_behind a n.end new_end n.next h3 in
    let moved = put_node h4.entry new_start (record n { end = new_end }) in
    let linked = put_node moved n.prev (record (moved n.prev) { next = new_start }) in
    let entry =
      if n.next == 0
      then linked
      else put_node linked n.next (record (linked n.next) { prev = new_start }) in
    (add32 new_start node_size, record h4 { entry = entry })

-- The last branch: a new allocation, and the old one is freed.
unfoldable pub move_away : ℕ → ℕ → Heap → Option (ℕ × Heap)
move_away allocation new_size h = elim (kalloc (sub32 new_size node_size) h) [
  | none ↦ none
  | some (p, h') ↦ if p == 0 then some (0, h') else some (p, kfree allocation h')
]

-- `krealloc`.
unfoldable pub krealloc : ℕ → ℕ → Heap → Option (ℕ × Heap)
krealloc allocation size h =
    let a = sub32 allocation node_size in
    let n = h.entry a in
    let entry_size = sub32 n.end a in
    let new_size = block_size size in
    let prev_end = (h.entry n.prev).end in
    let available = if n.next == 0 then sub32 h.memory_end prev_end else sub32 n.next prev_end in
    if allocation == 0
    then kalloc size h
    else if new_size == node_size
    then some (0, kfree allocation h)
    else if new_size == entry_size
    then some (allocation, h)
    else if ltb new_size entry_size
    then some (allocation, shrink a new_size h)
    else if leb (sub32 new_size entry_size) (free_space h a)
    then some (allocation, expand a new_size h)
    else if leb new_size available
    then some (move_below a new_size available h)
    else move_away allocation new_size h
