-- ===== src/Port.antt =====
-- `Port8`, `Port16` and `Port32` of include/hardware_communication/port.h: reads and writes of a
-- byte, or of a word of 16 or 32 bits, at a port.
pub mod Queue
use pingu_os.Common.{ℕ}

-- What hangs on the ports is a state `P`, which a read may change too.
pub record Ports (P : Type 0) : Type 0 where
  pub read : P → ℕ → ℕ × P
  pub write : P → ℕ → ℕ → P
