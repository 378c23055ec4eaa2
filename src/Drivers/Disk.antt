-- ===== src/Drivers/Disk.antt =====
-- The interface `drivers::Disk`, by which the file system reaches a disk, and what it relies on.
pub mod Mock
use pingu_os.Common.{ℕ, ◌-◌, ◌≤◌, ◌<◌, ◌≡◌, ◌≢◌, ◌++◌, length, take, replicate}
use pingu_os.Common.Bytes.{Bytes}

pub data DiskErr : Type 0 where
  success dne not_ata invalid_sector invalid_size no_space other : DiskErr

-- `read_28` gives the bytes that it stored in the caller's buffer, `write_28` the disk afterwards.
pub record Disk (D : Type 0) : Type 0 where
  pub read_28 : D → ℕ → ℕ → DiskErr × Bytes
  pub write_28 : D → ℕ → Bytes → DiskErr × D

abbrev pub sector_size : ℕ
sector_size = 512

-- A disk of `count` sectors of 512 bytes: a read gives the first bytes of a sector, and a write
-- stores the bytes that it is given and fills the rest of the sector with zeros.
pub record IsDisk {D : Type 0} (dev : Disk D) (count : ℕ) : Type 0 where
  pub sector : D → ℕ → Bytes
  pub full_sector : (d : D) (s : ℕ) → length (sector d s) ≡ sector_size
  pub reads :
      (d : D) (s n : ℕ)
      → s < count
      → n ≤ sector_size
      → dev.read_28 d s n ≡ (success, take n (sector d s))
  pub writes :
      (d : D) (s : ℕ) (bytes : Bytes)
      → s < count
      → length bytes ≤ sector_size
      → sector (dev.write_28 d s bytes).1 s ≡ bytes ++ replicate (sector_size - length bytes) 0
  pub keeps :
      (d : D) (s t : ℕ) (bytes : Bytes)
      → s < count
      → length bytes ≤ sector_size
      → s ≢ t
      → sector (dev.write_28 d s bytes).1 t ≡ sector d t
