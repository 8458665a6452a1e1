-- ===== src/Memory.antt =====
-- Memory management: kernel/hardware/devices/memory/.
pub mod Pages
pub mod Physical
pub mod Heap
pub mod Mapped
mod Tests
