-- ===== src/Drivers/Keyboard/Keys.antt =====
-- The scan codes of include/drivers/keyboard.h.
pub mod Rows
pub mod Modifiers
pub use Rows.*
pub use Modifiers.*
