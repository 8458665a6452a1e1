-- ===== src/Memory/Tests.antt =====
-- Concrete inputs for the memory modules.
use blesk_os.Common.{ℕ, ◌+◌, ◌-◌, ◌*◌, ◌≤◌, ◌<◌, ◌≡◌, refl, [], ◌==◌, arith, as_int, if◌then◌else◌}
use blesk_os.Memory.Pages.{page_size}
use blesk_os.Memory.Physical.{
  Entry, align_entry, PhyMem, local_alloc_page, local_free_page, take_local, put_local,
  alloc_continuous_memory, pages_of, search_run, run_length, move_down,
}
use blesk_os.Memory.Physical.Align.{align_entry-unaligned}
use blesk_os.Memory.Physical.Local.{total, local_alloc_page-total, local_free_page-total}
use blesk_os.Memory.Physical.Continuous.{Taken, alloc_continuous_memory-Taken}
use blesk_os.Memory.Mapped.{Temporary, Permanent}

abbrev aligned_entry : Entry
aligned_entry = record { memory_start = 0x100000; memory_size = 0x2345 }

abbrev whole_entry : Entry
whole_entry = record { memory_start = 0x100000; memory_size = 0x3000 }

abbrev crooked_entry : Entry
crooked_entry = record { memory_start = 0x100800; memory_size = 0x2000 }

align_entry-unaligned_example : (align_entry crooked_entry).memory_size ≡ 0
align_entry-unaligned_example = align_entry-unaligned crooked_entry (omega arith) (omega arith)

-- Four pages on the stack, the upper three of them consecutive downwards.
abbrev pages : PhyMem
pages = record {
  stack = λ i. if i == 0 then 0x9000 else 0x8000 - i * 0x1000;
  stack_pointer = 4;
  stack_last_entry = 6;
  number_of_all_pages = 6;
  number_of_allocated_pages = 2;
}

-- A local stack with one page.
abbrev local_stack : ℕ → ℕ
local_stack i = if i == 0 then 1 else 0x20000 + i * 0x1000

-- The same stack when its page was taken.
abbrev local_rest : ℕ → ℕ
local_rest k = if k == 0 then 0 else local_stack k

local_alloc_page-total_example :
    ((p : ℕ)
      → total p local_stack pages
        ≡ total p local_rest (record pages { number_of_allocated_pages = 3 })
          + as_int (0x21000 == p))
    × (0 ≤ 255)
unfolding local_alloc_page take_local
local_alloc_page-total_example =
    local_alloc_page-total local_stack pages 0x21000 local_rest
      (record pages { number_of_allocated_pages = 3 }) (omega arith) refl

-- The same stack with one more page.
abbrev local_more : ℕ → ℕ
local_more k = if k == 0 then 2 else if k == 2 then 0x77000 else local_stack k

local_free_page-total_example :
    ((p : ℕ)
      → total p local_more (record pages { number_of_allocated_pages = 1 })
        ≡ total p local_stack pages + as_int (0x77000 == p))
    × (2 ≤ 255)
unfolding local_free_page put_local
local_free_page-total_example =
    local_free_page-total local_stack pages 0x77000 local_more
      (record pages { number_of_allocated_pages = 1 }) (omega arith) refl

abbrev pages_taken : PhyMem
pages_taken = record pages {
  stack = move_down pages.stack 4 1 0;
  stack_pointer = 3;
  number_of_allocated_pages = 3;
}

-- One page for 4000 bytes.
alloc_continuous_memory-Taken_example :
    (need : ℕ) × (4000 ≤ need * page_size)
    × (need * page_size < 4000 + page_size)
    × Taken need pages 0x5000 pages_taken
unfolding alloc_continuous_memory pages_of search_run run_length
alloc_continuous_memory-Taken_example =
    alloc_continuous_memory-Taken 4000 pages 0x5000 pages_taken (omega arith) refl

abbrev first_temporary : Temporary
first_temporary = record { base = 0x400000; free_size = 0x10000; calls = [] }

abbrev first_permanent : Permanent
first_permanent = record {
  base = 0xFF000000;
  num_of_allocations = 0;
  requested_size = 0;
  real_size = 0;
  phy_mem_mapped = 0;
  calls = [];
}
