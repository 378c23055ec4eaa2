-- ===== src/Filesystem/Fat/Mount/Geometry.antt =====
-- What a mounted volume satisfies.
use pingu_os.Common.{
  if◌then◌else◌, length, ℕ, ◌*◌, ◌≤◌, ◌<◌, ◌≡◌, ◌≢◌, ◌⊎◌, inl, inr, refl, sym, subst, arith, true,
  false, Bool-cases, ◌==◌, ==_iff, ltb, ltb→lt,
}
use pingu_os.Drivers.Disk.{Disk}
use pingu_os.Filesystem.{FsError, success, invalid_filesystem}
use pingu_os.Filesystem.Fat.{Fat32, parse_bpb, bpb_size, BiosParameterBlock32}
use pingu_os.Filesystem.Fat.Directory.{cluster_sector}
use pingu_os.Filesystem.Fat.Clusters.{first_sector, cluster_size}
use pingu_os.Filesystem.Fat.Mount.{read_bpb, mount}

not_equal : (a b : ℕ) → (a == b) ≡ false → a ≢ b
not_equal a b differ same = ground arith

small : (n bytes : ℕ) → bytes ≡ 512 → ltb 8 n ≡ false → n * bytes ≤ 4096
small n bytes same few = subst (λ b. n * b ≤ 4096) (sym same) (at_most n few)
  where
    at_most : (n : ℕ) → ltb 8 n ≡ false → n * 512 ≤ 4096
    at_most n few = ground arith

module _ {D M : Type 0} (dev : Disk D) where
  -- A volume that has been accepted or refused.
  pub data Mounting (fs : Fat32 D M) (bpb : BiosParameterBlock32)
      : FsError × Fat32 D M → Type 0 where
    accepted :
        {g : Fat32 D M}
        → g.bpb ≡ bpb
        → bpb.bytes_per_sector ≡ 512
        → cluster_size g ≤ 4096
        → g.mounted ≡ true
        → ((c : ℕ) → cluster_sector g c ≡ first_sector g c)
        → Mounting fs bpb (success, g)
    refused :
        (bpb.bytes_per_sector ≢ 512) ⊎ (8 < bpb.sectors_per_cluster)
        → Mounting fs bpb (invalid_filesystem, record fs { bpb = bpb })

  -- `mount` reads the boot sector of the partition; where no byte is read, it goes by what it had.
  -- It accepts 512 bytes to a sector and at most 8 sectors to a cluster: then the volume is mounted,
  -- a cluster fits the iterator's buffer of 4096 bytes, and the iterator and the driver agree on the
  -- first sector of every cluster. It refuses every other boot sector, and then nothing but the copy
  -- of the boot sector changes.
  pub mount-Mounting :
      (fs : Fat32 D M)
      → let bytes = (dev.read_28 fs.disk fs.partition_offset bpb_size).1 in
        Mounting fs (if length bytes == 0 then fs.bpb else parse_bpb bytes) (mount dev fs)
  unfolding mount read_bpb cluster_sector
  mount-Mounting fs =
      let bpb = read_bpb dev fs in
      elim (Bool-cases (bpb.bytes_per_sector == 512)) [
        | inr other ↦ rw other (refused (inl (not_equal bpb.bytes_per_sector 512 other)))
        | inl same ↦ elim (Bool-cases (ltb 8 bpb.sectors_per_cluster)) [
          | inl many ↦ rw (same, many) (refused (inr (ltb→lt 8 bpb.sectors_per_cluster many)))
          | inr few ↦
              let bytes = (==_iff _ _).0 same in
              rw (same, few)
                (accepted refl bytes (small bpb.sectors_per_cluster bpb.bytes_per_sector bytes few)
                  refl (λ c. refl))
        ]
      ]
