-- ===== src/HumanInput/Ps2/Tables.antt =====
-- The tables from scan codes to keys of kernel/hardware/devices/human_input/ps2_keyboard.c.
mod Set1
mod Set2
mod Set3
unfoldable pub use Set1.*
unfoldable pub use Set2.*
unfoldable pub use Set3.*
