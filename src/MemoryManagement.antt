-- ===== src/MemoryManagement.antt =====
-- The kernel heap: `LinearAllocator` of src/memory_management.cpp, over a memory of headers.
pub mod Blocks
pub mod Layout
pub mod Cut
pub mod Malloc
pub mod Merge
pub mod Free
pub mod Coalesced
pub mod Undo
pub mod Live
pub mod Contract
mod Examples
pub mod Aligned
pub mod Service
use Prim.Native.Nat.{bit_and}
use pingu_os.Common.{
  ℕ, zero, suc, ◌-◌, ◌%◌, ◌^◌, Bool, true, false, not, ◌&&◌, ◌||◌, Option, none, some, ltb, leb,
  ◌==◌, if◌then◌else◌, add32, sub32,
}

-- Pointers are 32-bit addresses, and 0 is the null pointer.
pub record MemoryNode : Type 0 where
  pub next : ℕ
  pub prev : ℕ
  pub allocated : Bool
  pub size : ℕ
  pub offset : ℕ

-- `sizeof(MemoryNode)`: two pointers, a flag, a size and an offset, each in four bytes.
abbrev pub header_size : ℕ
header_size = 20

-- The header that stands at each address, whatever the bytes there are.
abbrev pub Memory : Type 0
Memory = ℕ → MemoryNode

unfoldable pub write : Memory → ℕ → MemoryNode → Memory
write m p n a = if a == p then n else m a

pub record LinearAllocator : Type 0 where
  pub m_first : ℕ
  pub mem : Memory

-- The constructor; the fields that it does not assign keep what memory held.
unfoldable pub init : Memory → ℕ → ℕ → LinearAllocator
unfolding write
init m start size = if ltb size header_size then record { m_first = 0; mem = m } else record {
  m_first = start;
  mem =
      write m start
        (record (m start) { next = 0; prev = 0; allocated = false; size = sub32 size header_size });
}

-- The search for the first free chunk that is larger than `size`; `some 0` if there is none,
-- `none` if the fuel runs out.
unfoldable pub find_chunk : ℕ → Memory → ℕ → ℕ → Option ℕ
find_chunk zero m chunk size = none
find_chunk (suc fuel) m chunk size =
    let rest = find_chunk fuel m (m chunk).next size in
    if chunk == 0
    then some 0
    else if ltb size (m chunk).size && not (m chunk).allocated
    then some chunk
    else rest

-- `(raw_addr + (alignment - 1)) & ~(alignment - 1)`
unfoldable pub align_up : ℕ → ℕ → ℕ
align_up raw alignment =
    let mask = sub32 alignment 1 in bit_and (add32 raw mask) (2 ^ 32 - 1 - mask)

-- The rest of a chunk becomes a chunk of its own, linked behind it.
unfoldable pub split_chunk : Memory → ℕ → ℕ → ℕ → ℕ → Memory
unfolding write
split_chunk m result aligned size padding =
    let temp = add32 aligned size in
    let after = (m result).next in
    let m₁ = write m temp (record (m temp) {
      allocated = false;
      size = sub32 (sub32 (sub32 (m result).size size) padding) header_size;
      prev = result;
      next = after;
    }) in
    let m₂ = if after == 0 then m₁ else write m₁ after (record (m₁ after) { prev = temp }) in
    write m₂ result (record (m₂ result) { size = add32 size padding; next = temp })

-- What `malloc` does with the chunk that it has found.
unfoldable pub take_chunk : Memory → ℕ → ℕ → ℕ → ℕ × Memory
take_chunk m result size alignment =
    let raw = add32 result header_size in
    let aligned = align_up raw alignment in
    let padding = sub32 aligned raw % 256 in
    let m₁ =
      if leb (add32 (add32 (add32 size padding) header_size) 1) (m result).size
      then split_chunk m result aligned size padding
      else m in
    (aligned, write m₁ result (record (m₁ result) { allocated = true; offset = padding }))

-- The outcome of the search: out of fuel, nothing found, or a chunk.
unfoldable pub give : Option ℕ → LinearAllocator → ℕ → ℕ → Option (ℕ × LinearAllocator)
give none a size alignment = none
give (some zero) a size alignment = some (0, a)
give (some (suc k)) a size alignment =
    let (p, m) = take_chunk a.mem (suc k) size alignment in some (p, record a { mem = m })

-- `malloc`: null and no change if no chunk is large enough.
unfoldable pub malloc : ℕ → LinearAllocator → ℕ → ℕ → Option (ℕ × LinearAllocator)
malloc fuel a size alignment =
    give (find_chunk fuel a.mem a.m_first size) a size
      (if alignment == 0 || alignment == 1 then 1 else alignment)

-- `into` takes in the chunk `gone` behind it: its bytes, its header, and its link. The source has
-- these lines twice.
unfoldable pub absorb : Memory → ℕ → ℕ → Memory
absorb m into gone =
    let after = (m gone).next in
    let m₁ = write m into (record (m into) {
      size = add32 (m into).size (add32 (m gone).size header_size);
      next = after;
    }) in
    if after == 0 then m₁ else write m₁ after (record (m₁ after) { prev = into })

-- "Attempt to merge next": the node takes in its successor, if that is free.
unfoldable pub merge_next : Memory → ℕ → Memory
merge_next m node =
    let next = (m node).next in
    if not (next == 0) && not (m next).allocated then absorb m node next else m

-- "Attempt to merge prev": the predecessor takes in the node, if it is free; with the node that
-- `to_be_freed` then points to.
unfoldable pub merge_prev : Memory → ℕ → ℕ × Memory
merge_prev m node =
    let prev = (m node).prev in
    if not (prev == 0) && not (m prev).allocated then (prev, absorb m prev node) else (node, m)

unfoldable pub free_node : Memory → ℕ → Memory
free_node m node =
    let (freed, m₁) = merge_prev (write m node (record (m node) { allocated = false })) node in
    merge_next m₁ freed

-- `free`: the header lies before the pointer, and before that the padding, as the `offset` that
-- stands directly before the pointer has it.
unfoldable pub free : LinearAllocator → ℕ → LinearAllocator
free a ptr =
    if ptr == 0
    then a
    else (let header = sub32 ptr header_size in
        record a { mem = free_node a.mem (sub32 header (a.mem header).offset) })
