-- ===== src/Programs.antt =====
-- The library of programs: userspace_library/.
pub mod Malloc
mod Tests
