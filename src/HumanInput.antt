-- ===== src/HumanInput.antt =====
-- Human input: kernel/hardware/groups/human_input/ and kernel/hardware/devices/human_input/.
pub mod Keys
pub mod Designated
pub mod State
pub mod Events
pub mod Group
pub mod Watch
pub mod Ps2
mod Tests
pub mod Layout
