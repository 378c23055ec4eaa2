-- ===== src/Allocator.antt =====
-- The interface `memory_management::Allocator`, by which the kernel's parts take memory.
use pingu_os.Common.{ℕ, ◌≡◌, Option, some, length}
use pingu_os.Common.Bytes.{Bytes}

-- A block of memory, with the bytes that it holds when it is handed out.
pub record Buffer : Type 0 where
  pub addr : ℕ
  pub bytes : Bytes

-- `malloc` gives no block where the source returns null.
pub record Allocator (M : Type 0) : Type 0 where
  pub malloc : M → ℕ → Option Buffer × M
  pub free : M → ℕ → M

-- A block has the size that was asked for.
pub record IsAllocator {M : Type 0} (mem : Allocator M) : Type 0 where
  pub sized :
      (m : M) (size : ℕ) {b : Buffer} → (mem.malloc m size).0 ≡ some b → length b.bytes ≡ size
