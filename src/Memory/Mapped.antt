-- ===== src/Memory/Mapped.antt =====
-- The temporary and the permanent allocator of kernel/hardware/devices/memory/memory_allocators.c. A
-- pointer is an address, 0 is NULL; the mutexes are left out. The functions of virtual_memory.c that
-- map pages stand as a list of their calls, the newest first.
pub mod Window
use blesk_os.Common.{
  ℕ, ◌+◌, ◌*◌, ◌/◌, ◌^◌, Bool, ◌||◌, List, ◌∷◌, ◌==◌, ltb, if◌then◌else◌, add32, sub32,
}
use blesk_os.Memory.Pages.{page_size, page_mask, page_offset, page_round}

-- A call that maps pages: `vm_allocate_pages` at a virtual address, and `vm_map_phy_pages` at a
-- virtual address with a physical one.
pub data MappingCall : Type 0 where
  allocate_pages : ℕ → ℕ → MappingCall
  map_phy_pages : ℕ → ℕ → ℕ → MappingCall

-- The variables of the temporary allocator.
pub record Temporary : Type 0 where
  pub base : ℕ
  pub free_size : ℕ
  pub calls : List MappingCall

-- `temp_phy_alloc`.
unfoldable pub temp_phy_alloc : ℕ → ℕ → Temporary → ℕ × Temporary
temp_phy_alloc phy_start size t =
    let total = page_round (add32 size (page_offset phy_start)) in
    if (t.base == 0) || ((t.free_size == 0) || ltb t.free_size total) then (0, t) else (
      add32 t.base (page_offset phy_start),
      record {
        base = add32 t.base total;
        free_size = sub32 t.free_size total;
        calls = map_phy_pages t.base (page_mask phy_start) total ∷ t.calls;
      },
    )

-- `VM_PERM_ALLOCATOR_START`.
abbrev pub perm_start : ℕ
perm_start = 0xE0000000

-- The variables of the permanent allocator.
pub record Permanent : Type 0 where
  pub base : ℕ
  pub num_of_allocations : ℕ
  pub requested_size : ℕ
  pub real_size : ℕ
  pub phy_mem_mapped : ℕ
  pub calls : List MappingCall

-- `perm_alloc`.
unfoldable pub perm_alloc : ℕ → Permanent → ℕ × Permanent
perm_alloc size p =
    let p1 = record p {
      num_of_allocations = add32 p.num_of_allocations 1;
      requested_size = add32 p.requested_size size;
    } in
    let total = page_round size in
    let base = sub32 p.base total in
    if ltb base perm_start then (0, p1) else (
      base,
      record p1 {
        base = base;
        real_size = add32 p.real_size total;
        calls = allocate_pages base total ∷ p.calls;
      },
    )

-- `perm_phy_alloc`.
unfoldable pub perm_phy_alloc : ℕ → ℕ → Permanent → ℕ × Permanent
perm_phy_alloc phy_start size p =
    let p1 = record p { num_of_allocations = add32 p.num_of_allocations 1 } in
    let total = page_round (add32 size (page_offset phy_start)) in
    let base = sub32 p.base total in
    if ltb base perm_start then (0, p1) else (
      add32 base (page_offset phy_start),
      record p1 {
        base = base;
        phy_mem_mapped = add32 p.phy_mem_mapped total;
        calls = map_phy_pages base (page_mask phy_start) total ∷ p.calls;
      },
    )
