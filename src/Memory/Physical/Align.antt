-- ===== src/Memory/Physical/Align.antt =====
-- What the alignment of the free memory map does to an entry.
use blesk_os.Common.{leb, if◌then◌else◌, ◌+◌, ◌-◌, ◌^◌, ◌<◌, ◌≡◌, ◌≢◌, arith}
use blesk_os.Memory.Pages.{page_size, page_mask, page_offset}
use blesk_os.Memory.Physical.{Entry, align_entry}

-- An entry that starts at a page boundary keeps its start, and its size is rounded down to pages.
pub align_entry-aligned :
    (e : Entry)
    → page_offset e.memory_start ≡ 0
    → ((align_entry e).memory_start ≡ e.memory_start)
      × ((align_entry e).memory_size ≡ page_mask e.memory_size)
unfolding align_entry
align_entry-aligned e h = ground arith

-- An entry of 32-bit numbers that does not start at a page boundary loses all its memory if it
-- reaches the next boundary, and has 2 ^ 32 - 4096 bytes if it does not.
pub align_entry-unaligned :
    (e : Entry)
    → page_offset e.memory_start ≢ 0
    → e.memory_size < 2 ^ 32
    → (align_entry e).memory_size ≡ (
        if leb (page_mask e.memory_start + page_size) (e.memory_start + e.memory_size)
        then 0
        else 2 ^ 32 - page_size)
unfolding align_entry
align_entry-unaligned e h k = ground arith
