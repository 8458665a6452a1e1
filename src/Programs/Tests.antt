-- ===== src/Programs/Tests.antt =====
-- The allocator of a program that starts, on which the theorems are applied.
use blesk_os.Common.{refl, arith}
use blesk_os.Programs.Malloc.{initialize_bleskalloc, aligned_malloc}
use blesk_os.Programs.Malloc.Blocks.{IsBleskalloc, AlignedBlock, aligned_malloc-AlignedBlock}

initial-IsBleskalloc : IsBleskalloc initialize_bleskalloc
initial-IsBleskalloc = record {
  aligned = refl;
  whole = refl;
  positive = omega arith;
  fits = omega arith;
}

aligned_malloc-AlignedBlock_example :
    AlignedBlock 16 10 initialize_bleskalloc (aligned_malloc 16 10 initialize_bleskalloc)
aligned_malloc-AlignedBlock_example =
    aligned_malloc-AlignedBlock 2 10 initialize_bleskalloc initial-IsBleskalloc (omega arith)
      (omega arith)
