-- ===== src/HumanInput/Keys.antt =====
-- The key numbers of kernel/hardware/groups/human_input/human_input.h (`human_input_keys_t`).
-- The enumeration starts at 1; index 0 of every table by key stands for no key.
mod Typing
mod Control
mod Symbols
mod Media
pub use Typing.*
pub use Control.*
pub use Symbols.*
pub use Media.*
use Prim.Native.Nat.{ℕ}

-- `INPUT_KEY_COUNT`, the length of the arrays by key.
abbrev pub input_key_count : ℕ
input_key_count = 149
