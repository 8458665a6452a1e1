-- ===== src/Memory/Physical.antt =====
-- kernel/hardware/devices/memory/physical_memory.c: the free memory map and the stacks of free
-- pages. A pointer into the stack of pages is the number of words below it. Page tables, the
-- clearing of pages and the log are left out; `none` is a kernel panic.
pub mod Align
pub mod Bump
pub mod Fill
pub mod Stack
pub mod Occurrences
pub mod Local
pub mod Continuous
use blesk_os.Common.{
  ℕ, zero, suc, ◌+◌, ◌-◌, ◌*◌, ◌/◌, ◌%◌, ◌^◌, Bool, true, false, not, ◌&&◌, Option, none, some,
  List, [], ◌∷◌, ◌==◌, ltb, leb, if◌then◌else◌, add32, sub32, mul32,
}
use blesk_os.Memory.Pages.{page_size, page_mask, page_offset, page_round}

-- `standardized_32_bit_free_memory_map_entry_t`.
pub record Entry : Type 0 where
  pub memory_start : ℕ
  pub memory_size : ℕ

-- One round of the loop of `initialize_physical_memory` that aligns the entries.
unfoldable pub align_entry : Entry → Entry
align_entry e =
    if not (page_offset e.memory_start == 0)
    then (if leb (page_size - page_offset e.memory_start) e.memory_size
        then record e { memory_size = 0 }
        else let start = add32 (page_mask e.memory_start) page_size in
          let size = sub32 e.memory_size (page_size - page_offset start) in
          record {
            memory_start = start;
            memory_size = if not (page_offset size == 0) then page_mask size else size;
          })
    else if not (page_offset e.memory_size == 0)
    then record e { memory_size = page_mask e.memory_size }
    else e

-- The scan of `pm_bump_alloc` for an aligned size.
unfoldable pub bump_scan : ℕ → List Entry → Option (ℕ × List Entry)
bump_scan size [] = none
bump_scan size (e ∷ es) =
    let rest = bump_scan size es in
    if leb size e.memory_size
    then some (
      e.memory_start,
      record { memory_start = add32 e.memory_start size; memory_size = e.memory_size - size } ∷ es,
    )
    else elim rest [ none ↦ none | some (page, es') ↦ some (page, e ∷ es') ]

-- `pm_bump_alloc`.
unfoldable pub bump_alloc : ℕ → List Entry → Option (ℕ × List Entry)
unfolding bump_scan
bump_alloc size es = bump_scan (page_round size) es

-- The globals of the file, and the stack of each processor: word 0 is the number of its pages.
pub record PhyMem : Type 0 where
  pub stack : ℕ → ℕ
  pub stack_pointer : ℕ
  pub stack_last_entry : ℕ
  pub number_of_all_pages : ℕ
  pub number_of_allocated_pages : ℕ

abbrev pub write : (ℕ → ℕ) → ℕ → ℕ → ℕ → ℕ
write f i v k = if k == i then v else f k

-- `*(pm_stack_pointer++) = page`.
unfoldable pub push : ℕ → PhyMem → PhyMem
push page m = record m {
  stack = write m.stack m.stack_pointer page;
  stack_pointer = m.stack_pointer + 1;
}

-- The loop over the pages of a chunk.
unfoldable pub push_pages : ℕ → ℕ → PhyMem → PhyMem
unfolding push
push_pages zero page m = m
push_pages (suc n) page m =
    push_pages n (add32 page page_size)
      (record (push page m) { number_of_all_pages = add32 m.number_of_all_pages 1 })

-- The limit on the pages that are cleared at once.
abbrev pub chunk : ℕ
chunk = 1024 * 253

-- How many pages of an entry one round takes.
unfoldable pub chunk_pages : ℕ → ℕ
chunk_pages size = if ltb chunk (size / page_size) then chunk else size / page_size

-- The `while` over the chunks of an entry; `none` means that the fuel ran out.
unfoldable pub fill_entry : ℕ → Entry → PhyMem → Option PhyMem
fill_entry zero e m = none
fill_entry (suc fuel) e m =
    let n = chunk_pages e.memory_size in
    let rest =
      fill_entry fuel
        (record {
          memory_start = add32 e.memory_start (mul32 n page_size);
          memory_size = sub32 e.memory_size (mul32 n page_size);
        })
        (push_pages n e.memory_start m) in
    if ltb 0 e.memory_size then rest else some m

-- `pm_direct_alloc_page`: the page and the new state.
unfoldable pub direct_alloc_page : PhyMem → Option (ℕ × PhyMem)
direct_alloc_page m =
    if m.stack_pointer == 0
    then none
    else some (
      m.stack (m.stack_pointer - 1),
      record m {
        stack_pointer = m.stack_pointer - 1;
        number_of_allocated_pages = add32 m.number_of_allocated_pages 1;
      },
    )

-- `pm_direct_free_page`.
unfoldable pub direct_free_page : ℕ → PhyMem → Option PhyMem
unfolding push
direct_free_page page m =
    if m.stack_pointer == m.stack_last_entry
    then none
    else some
        (record (push page m) { number_of_allocated_pages = sub32 m.number_of_allocated_pages 1 })

-- `n` rounds of the loop of `pm_local_alloc_page` that takes pages from the global stack; the
-- local stack is its words and the variable `index`.
unfoldable pub refill : ℕ → ℕ → (ℕ → ℕ) → PhyMem → ℕ × (ℕ → ℕ) × PhyMem
refill zero index local m = (index, local, m)
refill (suc n) index local m =
    let rest =
      refill n (index + 1) (write local (index + 1) (m.stack (m.stack_pointer - 1)))
        (record m { stack_pointer = m.stack_pointer - 1 }) in
    if m.stack_pointer == 0 then (index, local, m) else rest

-- The end of `pm_local_alloc_page`, with a page on the local stack.
unfoldable pub take_local : ℕ → (ℕ → ℕ) → PhyMem → ℕ × (ℕ → ℕ) × PhyMem
take_local index local m = (
  local index,
  write local 0 (local 0 - 1),
  record m { number_of_allocated_pages = add32 m.number_of_allocated_pages 1 },
)

-- `pm_local_alloc_page` on the stack of the current processor.
unfoldable pub local_alloc_page : (ℕ → ℕ) → PhyMem → Option (ℕ × (ℕ → ℕ) × PhyMem)
local_alloc_page local m =
    if local 0 == 0
    then (if m.stack_pointer == 0
        then none
        else let (index, local', m') = refill 64 (local 0) local m in
          some (take_local index (write local' 0 index) m'))
    else some (take_local (local 0) local m)

-- `n` rounds of the loop of `pm_local_free_page` that gives pages to the global stack.
unfoldable pub spill : ℕ → ℕ → (ℕ → ℕ) → PhyMem → Option (ℕ × PhyMem)
unfolding push
spill zero index local m = some (index, m)
spill (suc n) index local m =
    let rest = spill n (index - 1) local (push (local index) m) in
    if m.stack_pointer == m.stack_last_entry then none else rest

-- The end of `pm_local_free_page`.
unfoldable pub put_local : ℕ → ℕ → (ℕ → ℕ) → PhyMem → (ℕ → ℕ) × PhyMem
put_local page index local m =
    let stored = write local (index + 1) page in
    (
      write stored 0 (stored 0 + 1),
      record m { number_of_allocated_pages = sub32 m.number_of_allocated_pages 1 },
    )

-- `pm_local_free_page`.
unfoldable pub local_free_page : ℕ → (ℕ → ℕ) → PhyMem → Option ((ℕ → ℕ) × PhyMem)
local_free_page page local m =
    if local 0 == 255
    then elim (spill 128 (local 0) local m) [
      | none ↦ none
      | some (index, m') ↦ some (put_local page index (write local 0 index) m')
    ]
    else some (put_local page (local 0) local m)

-- The inner loop of `pm_alloc_continuous_memory`: the length of the run and where it ends.
unfoldable pub run_length : ℕ → ℕ → (ℕ → ℕ) → ℕ × ℕ
run_length n zero stack = (n, zero)
run_length n (suc s) stack =
    let more = run_length (n + 1) s stack in
    if add32 (stack (suc s)) page_size == stack s then more else (n, suc s)

-- `memcpy` of `len` words down by `need` words, from the word `from` on.
abbrev pub move_down : (ℕ → ℕ) → ℕ → ℕ → ℕ → ℕ → ℕ
move_down stack from need len k =
    if leb (from - need) k && ltb k (from - need + len) then stack (k + need) else stack k

-- The outer loop; `none` is the fuel's end, `some none` is NULL.
unfoldable pub search_run : ℕ → ℕ → ℕ → PhyMem → Option (Option (ℕ × PhyMem))
search_run zero need s m = none
search_run (suc fuel) need zero m = some none
search_run (suc fuel) need (suc s) m =
    let (n, s') = run_length 1 (suc s) m.stack in
    let block = suc s + 1 in
    let rest = search_run fuel need (s' - 1) m in
    if ltb n need
    then rest
    else some (
        some (
          m.stack (suc s),
          record m {
            stack = move_down m.stack block need (m.stack_pointer - block);
            stack_pointer = m.stack_pointer - need;
            number_of_allocated_pages = add32 m.number_of_allocated_pages need;
          },
        ))

-- The number of pages of a size.
unfoldable pub pages_of : ℕ → ℕ
pages_of size =
    (if not (page_offset size == 0) then add32 (page_mask size) page_size else size) / 2 ^ 12

-- `pm_alloc_continuous_memory`. `pm_stack_pointer - (number_of_pages * 4)` counts words.
unfoldable pub alloc_continuous_memory : ℕ → PhyMem → Option (Option (ℕ × PhyMem))
alloc_continuous_memory size m =
    if ltb m.stack_pointer (pages_of size * 4)
    then some none
    else search_run (m.stack_pointer + 1) (pages_of size) (m.stack_pointer - 1) m
