-- ===== src/Programs/Malloc.antt =====
-- The allocator of programs: userspace_library/bleskalloc.c. A pointer is an address, 0 is NULL; the
-- log is left out.
pub mod Blocks
use blesk_os.Common.{ℕ, ◌+◌, ◌-◌, ◌*◌, ◌/◌, bit_and, ◌==◌, ltb, if◌then◌else◌, add32, sub32}

-- `bleskalloc_ptr` and `bleskalloc_free_size`.
pub record Bleskalloc : Type 0 where
  pub ptr : ℕ
  pub free_size : ℕ

-- `initialize_bleskalloc`.
abbrev pub initialize_bleskalloc : Bleskalloc
initialize_bleskalloc = record { ptr = 0x10000000; free_size = 0x30000000 }

-- A size rounded up to four bytes.
abbrev pub rounded : ℕ → ℕ
rounded size = add32 size 3 / 4 * 4

-- The end of `malloc` and of `aligned_malloc`.
abbrev pub take : ℕ → Bleskalloc → ℕ × Bleskalloc
take size s =
    if ltb s.free_size size
    then (0, s)
    else (s.ptr, record { ptr = add32 s.ptr size; free_size = sub32 s.free_size size })

-- `malloc`.
unfoldable pub malloc : ℕ → Bleskalloc → ℕ × Bleskalloc
malloc size s = take (rounded size) s

-- `aligned_malloc`.
unfoldable pub aligned_malloc : ℕ → ℕ → Bleskalloc → ℕ × Bleskalloc
aligned_malloc alignment size s =
    let bytes = alignment - bit_and s.ptr (alignment - 1) in
    if bytes == alignment
    then take (rounded size) s
    else if ltb s.free_size bytes
    then (0, s)
    else take (rounded size)
        (record { ptr = add32 s.ptr bytes; free_size = sub32 s.free_size bytes })
