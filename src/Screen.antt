-- ===== src/Screen.antt =====
-- The screen subsystem: kernel/hardware/subsystems/screen/.
pub mod Draw
mod Tests
