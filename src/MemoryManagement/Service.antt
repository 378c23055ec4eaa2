-- ===== src/MemoryManagement/Service.antt =====
-- The heap as the allocator that the other parts of the kernel use, with the default alignment.
use pingu_os.Common.{
  ℕ, zero, suc, ◌+◌, ◌≡◌, refl, sym, ◌∙◌, ap, Option, none, some, [], ◌∷◌, length,
}
use pingu_os.Common.Bytes.{Bytes}
use pingu_os.Allocator.{Allocator, IsAllocator, Buffer}
use pingu_os.MemoryManagement.{LinearAllocator, malloc, free}

-- The bytes at an address; the headers are not looked at.
abbrev pub bytes_from : (ℕ → ℕ) → ℕ → ℕ → Bytes
bytes_from raw at zero = []
bytes_from raw at (suc n) = raw at ∷ bytes_from raw (at + 1) n

length-bytes_from : (raw : ℕ → ℕ) (at n : ℕ) → length (bytes_from raw at n) ≡ n
length-bytes_from raw at zero = refl
length-bytes_from raw at (suc n) = ap suc (length-bytes_from raw (at + 1) n)

-- No block for null, nor where the search does not end.
abbrev pub block_at :
    (ℕ → ℕ) → ℕ → LinearAllocator → Option (ℕ × LinearAllocator) → Option Buffer × LinearAllocator
block_at raw size a none = (none, a)
block_at raw size a (some (zero, a')) = (none, a')
block_at raw size a (some (suc p, a')) =
    (some (record { addr = suc p; bytes = bytes_from raw (suc p) size }), a')

-- The heap with a bound for its search, over memory that holds `raw`.
abbrev pub heap_allocator : ℕ → (ℕ → ℕ) → Allocator LinearAllocator
heap_allocator fuel raw = record {
  malloc = λ a size. block_at raw size a (malloc fuel a size 0);
  free = λ a ptr. free a ptr;
}

-- The size of a block that there is.
abbrev size_of : ℕ → Option Buffer → ℕ
size_of size none = size
size_of size (some b) = length b.bytes

sized_block :
    (raw : ℕ → ℕ) (size : ℕ) (a : LinearAllocator) (o : Option (ℕ × LinearAllocator))
    → size_of size (block_at raw size a o).0 ≡ size
sized_block raw size a none = refl
sized_block raw size a (some (zero, a')) = refl
sized_block raw size a (some (suc p, a')) = length-bytes_from raw (suc p) size

-- The blocks of the heap have the size that was asked for.
pub heap_allocator-IsAllocator : (fuel : ℕ) (raw : ℕ → ℕ) → IsAllocator (heap_allocator fuel raw)
heap_allocator-IsAllocator fuel raw = record {
  sized =
      λ a size {b} got. sym (ap (size_of size) got) ∙ sized_block raw size a (malloc fuel a size 0);
}
