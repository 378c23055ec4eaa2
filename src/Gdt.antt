-- ===== src/Gdt.antt =====
-- The segment descriptors of src/gdt.cpp, and what the constructor of the table puts into it.
pub mod Segments
pub mod Examples
use Prim.Native.Nat.{bit_and, bit_or}
use pingu_os.Common.{
  ℕ, ◌+◌, ◌*◌, ◌-◌, ◌/◌, ◌%◌, ◌^◌, Bool, true, false, not, ◌==◌, leb, if◌then◌else◌, shr, byte_at,
  add32, mul32,
}

-- The 8 bytes of `SegmentDescriptor`, under the names of its fields; the 16-bit fields are the
-- pairs of bytes 0 and 1, and 2 and 3.
pub record SegmentDescriptor : Type 0 where
  pub limit_lo_0 : ℕ
  pub limit_lo_1 : ℕ
  pub base_lo_0 : ℕ
  pub base_lo_1 : ℕ
  pub base_mid : ℕ
  pub access : ℕ
  pub flag_limit_hi : ℕ
  pub base_hi : ℕ

-- The limit in 4 KB pages, for a limit of more than 64 KB.
abbrev pub pages : ℕ → ℕ
pages limit = if not (bit_and limit 0xFFF == 0xFFF) then shr limit 12 - 1 else shr limit 12

-- The descriptor with a limit in the unit that `flags_hi` states.
abbrev pub encoded : ℕ → ℕ → ℕ → ℕ → SegmentDescriptor
encoded base limit flags flags_hi = record {
  limit_lo_0 = byte_at limit 0;
  limit_lo_1 = byte_at limit 8;
  base_lo_0 = byte_at base 0;
  base_lo_1 = byte_at base 8;
  base_mid = byte_at base 16;
  access = flags;
  flag_limit_hi = bit_or flags_hi (bit_and (shr limit 16) 0xF);
  base_hi = byte_at base 24;
}

unfoldable pub segment_descriptor : ℕ → ℕ → ℕ → SegmentDescriptor
segment_descriptor base limit flags =
    if leb limit (2 ^ 16)
    then encoded base limit flags 0x40
    else encoded base (pages limit) flags 0xC0

unfoldable pub base_of : SegmentDescriptor → ℕ
base_of d =
    add32 (add32 (add32 (mul32 (2 ^ 24) d.base_hi) (2 ^ 16 * d.base_mid)) (2 ^ 8 * d.base_lo_1))
      d.base_lo_0

unfoldable pub limit_of : SegmentDescriptor → ℕ
limit_of d =
    let result = 2 ^ 16 * bit_and d.flag_limit_hi 0xF + 2 ^ 8 * d.limit_lo_1 + d.limit_lo_0 in
    if bit_and d.flag_limit_hi 0xC0 == 0xC0 then bit_and (mul32 result (2 ^ 12)) 0xFFF else result

-- The four descriptors, in the order in which they lie.
pub record GlobalDescriptorTable : Type 0 where
  pub null_segment : SegmentDescriptor
  pub unused_segment : SegmentDescriptor
  pub code_segment : SegmentDescriptor
  pub data_segment : SegmentDescriptor

unfoldable pub global_descriptor_table : GlobalDescriptorTable
unfolding segment_descriptor
global_descriptor_table = record {
  null_segment = segment_descriptor 0 0 0;
  unused_segment = segment_descriptor 0 0 0;
  code_segment = segment_descriptor 0 (64 * 1024 * 1024) 0x9A;
  data_segment = segment_descriptor 0 (64 * 1024 * 1024) 0x92;
}

-- `sizeof(SegmentDescriptor)`, and the selectors: the places of the third and the fourth.
abbrev pub descriptor_size : ℕ
descriptor_size = 8

unfoldable pub code_segment_selector : ℕ
code_segment_selector = 2 * descriptor_size

unfoldable pub data_segment_selector : ℕ
data_segment_selector = 3 * descriptor_size
