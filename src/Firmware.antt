-- ===== src/Firmware.antt =====
-- The firmware: kernel/firmware/.
pub mod Cmos
mod Tests
