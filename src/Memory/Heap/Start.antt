-- ===== src/Memory/Heap/Start.antt =====
-- The start of the kernel heap and its later extension: `initialize_allocators` and
-- `initialize_allocators_for_user_space` of kernel/hardware/devices/memory/memory_allocators.c.
pub mod Extended
use blesk_os.Common.{ℕ, ◌+◌, ◌-◌, ◌≡◌, refl, Bool, true, ◌==◌, if◌then◌else◌, add32, sub32, arith}
use blesk_os.Memory.Pages.{page_size, page_mask, page_offset}
use blesk_os.Memory.Heap.{Node, Heap, put_node, set_pages}
use blesk_os.Memory.Heap.Valid.{IsList, IsHeap, set_pages-IsHeap}

-- `VM_KERNEL_HEAP_START` and `VM_KERNEL_HEAP_END`.
abbrev pub heap_start : ℕ
heap_start = 0xC0800000

abbrev pub heap_end : ℕ
heap_end = 0xE0000000

-- `sizeof(kernel_heap_metadata_t)`, and where `first_entry` is in it.
abbrev pub metadata_size : ℕ
metadata_size = 36

abbrev pub first_entry_offset : ℕ
first_entry_offset = 24

-- The part of `initialize_allocators` about the heap, with what is in memory before.
unfoldable pub initialize_heap : (ℕ → Node) → (ℕ → Bool) → Heap
initialize_heap memory mapped =
    let first = heap_start + first_entry_offset in
    let start = heap_start + metadata_size in
    let memory_start =
      if page_offset metadata_size == 0 then start else page_mask start + page_size in
    set_pages true heap_start heap_start (record {
      first_entry = first;
      memory_end = heap_end;
      free_memory_start = memory_start;
      free_memory_size = heap_end - memory_start;
      insert_entry = first;
      entry = put_node memory first (record { end = memory_start; prev = 0; next = 0 });
      mapped = mapped;
    })

-- The part of `initialize_allocators_for_user_space` that changes the heap: it ends where the
-- permanent allocator has come to.
abbrev pub extend_heap : ℕ → Heap → Heap
extend_heap permanent_base h = record h { memory_end = permanent_base }

-- The only entry of a new heap.
abbrev pub first_only : ℕ → Bool
first_only a = a == heap_start + first_entry_offset

-- The heap is well formed from the start on, with `first_entry` as its only entry.
pub initialize_heap-IsHeap :
    (memory : ℕ → Node) (mapped : ℕ → Bool) → IsHeap first_only (initialize_heap memory mapped)
unfolding initialize_heap
initialize_heap-IsHeap memory mapped =
    set_pages-IsHeap first_only true heap_start heap_start _ (record {
      list = record {
        small = omega arith;
        first = refl;
        positive = omega arith;
        lowest = λ a k. ground arith;
        room = λ a k. ground arith;
        bound = λ a k. ground arith;
        apart = λ a b k l lt. ground arith;
        next_live = λ a k m. ground arith;
        next_least = λ a b k l lt. ground arith;
        prev_live = λ a k m. ground arith;
      };
      inserts = refl;
      free_start = ground arith;
      free_size = ground arith;
    })
