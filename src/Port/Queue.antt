-- ===== src/Port/Queue.antt =====
-- Ports of a device that sends bytes, for the tests: each read takes the next byte.
use pingu_os.Common.{ℕ, [], ◌∷◌}
use pingu_os.Common.Bytes.{Bytes}
use pingu_os.Port.{Ports}

abbrev pub next_byte : Bytes → ℕ × Bytes
next_byte [] = (0, [])
next_byte (c ∷ p) = (c, p)

abbrev pub queue : Ports Bytes
queue = record { read = λ p port. next_byte p; write = λ p port value. p }
