-- ===== src/Libc.antt =====
-- The C library of the kernel: kernel/libc/.
pub mod Ctype
pub mod Text
pub mod Number
pub mod Strtol
pub mod Endian
mod Tests
