-- ===== src/Memory/Pages.antt =====
-- The page arithmetic of kernel/hardware/devices/memory/virtual_memory.h, on 32-bit words.
use blesk_os.Common.{ℕ, ◌+◌, ◌*◌, ◌/◌, ◌%◌, ◌^◌}

abbrev pub page_size : ℕ
page_size = 0x1000

-- `PAGE_MASK`, the bits from the twelfth on.
abbrev pub page_mask : ℕ → ℕ
page_mask x = x / 0x1000 * 0x1000

-- `PAGE_OFFSET_MASK`, the twelve bits below.
abbrev pub page_offset : ℕ → ℕ
page_offset x = x % 0x1000

-- `((size + PAGE_SIZE - 1) / PAGE_SIZE) * PAGE_SIZE` of a 32-bit size.
abbrev pub page_round : ℕ → ℕ
page_round size = (size + 0xFFF) % 2 ^ 32 / 0x1000 * 0x1000
