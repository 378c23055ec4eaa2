-- ===== src/Gdt/Examples.antt =====
-- Tests: descriptors.
use pingu_os.Common.{◌≡◌, leb, if◌then◌else◌, ◌^◌}
use pingu_os.Gdt.{segment_descriptor, limit_of}
use pingu_os.Gdt.Segments.{limit_of-segment_descriptor}

limit_of-segment_descriptor_example :
    limit_of (segment_descriptor 0 0x4000000 0x9A)
    ≡ (if leb 0x4000000 (2 ^ 16) then 0x4000000 else 0)
limit_of-segment_descriptor_example = limit_of-segment_descriptor 0 0x4000000 0x9A
