-- ===== src/HumanInput/Ps2.antt =====
-- The PS/2 devices of kernel/hardware/devices/human_input/.
pub mod Tables
pub mod Keyboard
pub mod Mouse
pub mod Device
