-- ===== src/Memory/Heap.antt =====
-- The kernel heap of kernel/hardware/devices/memory/memory_allocators.c: `kalloc` and `kfree`. A pointer
-- is an address, 0 is NULL, and the entries stand in a store that is read and written at addresses.
-- The bytes of the allocations, the lock and the log are left out.
pub mod Valid
pub mod Search
pub mod Insert
pub mod Alloc
pub mod Free
pub mod Realloc
pub mod Aligned
pub mod Start
mod Tests
use blesk_os.Common.{
  ℕ, zero, suc, ◌+◌, ◌-◌, ◌*◌, ◌/◌, ◌%◌, ◌^◌, Bool, true, false, not, ◌&&◌, Option, none, some,
  ◌==◌, ltb, leb, if◌then◌else◌, add32, sub32,
}
use blesk_os.Memory.Pages.{page_size, page_mask, page_offset}

-- `kheap_entry_t`.
pub record Node : Type 0 where
  pub end : ℕ
  pub prev : ℕ
  pub next : ℕ

-- `sizeof(kheap_entry_t)`.
abbrev pub node_size : ℕ
node_size = 12

-- `kernel_heap_metadata_t`, with the address of `first_entry`, the store of the entries, and which
-- pages of the heap are mapped.
pub record Heap : Type 0 where
  pub first_entry : ℕ
  pub memory_end : ℕ
  pub free_memory_start : ℕ
  pub free_memory_size : ℕ
  pub insert_entry : ℕ
  pub entry : ℕ → Node
  pub mapped : ℕ → Bool

abbrev pub put_node : (ℕ → Node) → ℕ → Node → ℕ → Node
put_node f a n i = if i == a then n else f i

-- `vm_allocate_pages` or `vm_deallocate_pages` on the pages from `first` to `last`, if there are any.
unfoldable pub set_pages : Bool → ℕ → ℕ → Heap → Heap
set_pages v first last h =
    if leb first last
    then record h { mapped = λ p. if leb first p && leb p last then v else h.mapped p }
    else h

-- The free space behind an entry.
abbrev pub free_space : Heap → ℕ → ℕ
free_space h a =
    if (h.entry a).next == 0
    then sub32 h.memory_end (h.entry a).end
    else sub32 (h.entry a).next (h.entry a).end

-- The loop of `kalloc` for the biggest free space, from `current` on; `none` is the end of the fuel.
unfoldable pub find_biggest : ℕ → Heap → ℕ → ℕ → ℕ → Option (ℕ × ℕ)
find_biggest zero h current biggest who = none
find_biggest (suc fuel) h current biggest who =
    let better = ltb biggest (free_space h current) in
    let rest =
      find_biggest fuel h (h.entry current).next (if better then free_space h current else biggest)
        (if better then current else who) in
    if current == 0 then some (biggest, who) else rest

-- An entry is put into the list, between two others.
abbrev pub link : ℕ → Node → (ℕ → Node) → ℕ → Node
link new n f =
    let f1 = if n.next == 0 then f else put_node f n.next (record (f n.next) { prev = new }) in
    put_node (put_node f1 n.prev (record (f1 n.prev) { next = new })) new n

-- The pages of a new entry, without those that its neighbours have.
abbrev pub kalloc_pages : ℕ → Node → ℕ → Heap → Heap
kalloc_pages new n prev_end h =
    let first = page_mask new in
    let first' =
      if not (page_offset prev_end == 0) && (page_mask prev_end == first)
      then add32 first page_size
      else first in
    let last = page_mask (sub32 n.end 1) in
    let last' =
      if not (n.next == 0) && (page_mask n.next == last) then sub32 last page_size else last in
    set_pages true first' last' h

-- The end of `kalloc`: the new entry at the start of the free block.
unfoldable pub take_block : ℕ → Heap → ℕ × Heap
take_block size h =
    let new = h.free_memory_start in
    let n : Node = record {
      end = add32 new size;
      prev = h.insert_entry;
      next = (h.entry h.insert_entry).next;
    } in
    let h' = record h {
      free_memory_start = add32 h.free_memory_start size;
      free_memory_size = sub32 h.free_memory_size size;
      insert_entry = new;
      entry = link new n h.entry;
    } in
    (add32 new node_size, kalloc_pages new n (h.entry h.insert_entry).end h')

-- The size of a request with its entry, rounded up to four bytes.
abbrev pub block_size : ℕ → ℕ
block_size size = add32 (add32 size node_size) 3 / 4 * 4

-- The biggest free space becomes the free block.
abbrev pub use_block : ℕ → ℕ → Heap → Heap
use_block biggest who h = record h {
  free_memory_start = (h.entry who).end;
  free_memory_size = biggest;
  insert_entry = who;
}

-- `kalloc`: the pointer and the new heap; `none` is the end of the fuel.
unfoldable pub kalloc : ℕ → Heap → Option (ℕ × Heap)
kalloc size h =
    let need = block_size size in
    if size == 0
    then some (0, h)
    else if ltb h.free_memory_size need
    then elim (find_biggest (h.memory_end + 1) h h.first_entry 0 0) [
      | none ↦ none
      | some (biggest, who) ↦
          if biggest == 0
          then some (0, h)
          else if ltb biggest need
          then some (0, use_block biggest who h)
          else some (take_block need (use_block biggest who h))
    ]
    else some (take_block need h)

-- The pages that an entry alone has, from `entry` to `stop`; its neighbours are read from the store.
unfoldable pub own_pages : Bool → ℕ → ℕ → Heap → Heap
own_pages v entry stop h =
    let n = h.entry entry in
    let last_of_previous = page_mask (sub32 (h.entry n.prev).end 1) in
    let first = page_mask entry in
    let first' = if last_of_previous == first then add32 first page_size else first in
    let last = page_mask (sub32 stop 1) in
    let first_of_next = if n.next == 0 then 0 else page_mask n.next in
    let last' = if last == first_of_next then sub32 last page_size else last in
    set_pages v first' last' h

-- An entry is taken out of the list.
abbrev pub unlink : Node → (ℕ → Node) → ℕ → Node
unlink n f =
    let f1 = put_node f n.prev (record (f n.prev) { next = n.next }) in
    if n.next == 0 then f1 else put_node f1 n.next (record (f1 n.next) { prev = n.prev })

-- The free block becomes the space behind `who` if that is bigger.
abbrev pub offer_space : ℕ → ℕ → ℕ → Heap → Heap
offer_space who start space h =
    if ltb h.free_memory_size space
    then record h { free_memory_start = start; free_memory_size = space; insert_entry = who }
    else h

-- `kfree`.
unfoldable pub kfree : ℕ → Heap → Heap
kfree allocation h =
    let a = sub32 allocation node_size in
    let n = h.entry a in
    let h1 = own_pages false a n.end h in
    let h2 = record h1 { entry = unlink n h1.entry } in
    let prev_end = (h2.entry n.prev).end in
    let space = if n.next == 0 then sub32 h2.memory_end prev_end else sub32 n.next prev_end in
    if allocation == 0 then h else offer_space n.prev prev_end space h2
