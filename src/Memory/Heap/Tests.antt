-- ===== src/Memory/Heap/Tests.antt =====
-- A heap of three entries, on which the theorems about the kernel heap are applied.
use blesk_os.Common.{ℕ, ◌+◌, ◌<◌, ◌≡◌, Bool, false, ◌||◌, some, ◌==◌, if◌then◌else◌, arith, refl}
use blesk_os.Memory.Heap.{Node, Heap, node_size, kfree}
use blesk_os.Memory.Heap.Valid.{IsHeap}
use blesk_os.Memory.Heap.Alloc.{Outcome, kalloc-cases}
use blesk_os.Memory.Heap.Free.{without_entry, kfree-IsHeap}
use blesk_os.Memory.Heap.Aligned.Cases.{AlignedOutcome, aligned_kalloc-cases}
use blesk_os.Memory.Heap.Start.{extend_heap, first_only, initialize_heap, initialize_heap-IsHeap}
use blesk_os.Memory.Heap.Start.Extended.{krealloc-extended}
use blesk_os.Memory.Heap.Realloc.{krealloc}
use blesk_os.Memory.Heap.Realloc.Moved.{krealloc-overlap}

abbrev three : ℕ → Bool
three a = (a == 4096) || ((a == 4200) || (a == 4264))

abbrev three_entries : ℕ → Node
three_entries a =
    if a == 4096
    then record { end = 4108; prev = 0; next = 4200 }
    else if a == 4200
    then record { end = 4232; prev = 4096; next = 4264 }
    else record { end = 4300; prev = 4200; next = 0 }

-- The free block is behind the first entry.
abbrev three_heap : Heap
three_heap = record {
  first_entry = 4096;
  memory_end = 4320;
  free_memory_start = 4108;
  free_memory_size = 92;
  insert_entry = 4096;
  entry = three_entries;
  mapped = λ p. p == 4096;
}

three-IsHeap : IsHeap three three_heap
three-IsHeap = record {
  list = record {
    small = omega arith;
    first = refl;
    positive = omega arith;
    lowest = λ a k. ground arith;
    room = λ a k. ground arith;
    bound = λ a k. ground arith;
    apart = λ a b k l lt. ground arith;
    next_live = λ a k m. ground arith;
    next_least = λ a b k l lt. ground arith;
    prev_live = λ a k m. ground arith;
  };
  inserts = refl;
  free_start = refl;
  free_size = refl;
}

kalloc-cases_example : Outcome three 100 three_heap
kalloc-cases_example = kalloc-cases three 100 three_heap three-IsHeap (omega arith) (omega arith)

kfree-IsHeap_example :
    IsHeap (without_entry three 4200) (kfree (4200 + node_size) three_heap)
    × ((i : ℕ) → ((kfree (4200 + node_size) three_heap).entry i).end ≡ (three_heap.entry i).end)
kfree-IsHeap_example = kfree-IsHeap three three_heap 4200 three-IsHeap refl (ground arith)

krealloc-overlap_example :
    (h' : Heap) × (krealloc (4200 + node_size) 60 three_heap
      ≡ some (h'.free_memory_start + node_size, h'))
    × (0 < h'.free_memory_size)
krealloc-overlap_example =
    krealloc-overlap three three_heap 4200 60 three-IsHeap refl (ground arith) refl (omega arith)
      (omega arith) (ground arith) (ground arith)

aligned_kalloc-cases_example : AlignedOutcome three 4 16 three_heap
aligned_kalloc-cases_example =
    aligned_kalloc-cases three 4 16 three_heap three-IsHeap (omega arith) (omega arith)

abbrev blank : ℕ → Node
blank a = record { end = 0; prev = 0; next = 0 }

initialize_heap-IsHeap_example : IsHeap first_only (initialize_heap blank (λ p. false))
initialize_heap-IsHeap_example = initialize_heap-IsHeap blank (λ p. false)

abbrev two : ℕ → Bool
two a = (a == 4096) || (a == 4200)

-- The free block is behind the last entry.
abbrev two_heap : Heap
two_heap = record {
  first_entry = 4096;
  memory_end = 4320;
  free_memory_start = 4232;
  free_memory_size = 88;
  insert_entry = 4200;
  entry = λ a.
      if a == 4096
      then record { end = 4108; prev = 0; next = 4200 }
      else record { end = 4232; prev = 4096; next = 0 };
  mapped = λ p. p == 4096;
}

two-IsHeap : IsHeap two two_heap
two-IsHeap = record {
  list = record {
    small = omega arith;
    first = refl;
    positive = omega arith;
    lowest = λ a k. ground arith;
    room = λ a k. ground arith;
    bound = λ a k. ground arith;
    apart = λ a b k l lt. ground arith;
    next_live = λ a k m. ground arith;
    next_least = λ a b k l lt. ground arith;
    prev_live = λ a k m. ground arith;
  };
  inserts = refl;
  free_start = refl;
  free_size = refl;
}

krealloc-extended_example :
    (h' : Heap) × (krealloc (4200 + node_size) 200 (extend_heap 8192 two_heap)
      ≡ some (4200 + node_size, h'))
    × (8192 < h'.free_memory_start + h'.free_memory_size)
krealloc-extended_example =
    krealloc-extended two two_heap 4200 200 8192 two-IsHeap refl refl refl (omega arith)
      (omega arith) (omega arith) (omega arith) (omega arith)
