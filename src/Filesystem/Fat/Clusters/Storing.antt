-- ===== src/Filesystem/Fat/Clusters/Storing.antt =====
-- `write_cluster` from the start of a cluster, by what the cluster holds behind it.
use pingu_os.Common.{
  ℕ, ◌+◌, ◌*◌, ◌-◌, ◌/◌, ◌%◌, ◌^◌, ◌≤◌, ◌<◌, ◌≡◌, ◌⊎◌, inl, inr, ◌∙◌, sym, subst, ap, ap₂, arith,
  Option, some, ◌++◌, length, take, drop, length-drop, take_add,
}
use pingu_os.Common.Bytes.{Bytes}
use pingu_os.Allocator.{Allocator}
use pingu_os.Drivers.Disk.{Disk, IsDisk}
use pingu_os.Filesystem.{FsError, success}
use pingu_os.Filesystem.Fat.{Fat32}
use pingu_os.Filesystem.Fat.Clusters.{cluster_size, first_sector, write_cluster}
use pingu_os.Filesystem.Fat.Clusters.Whole.{run, Written, written}
use pingu_os.Filesystem.Fat.Clusters.Runs.{take-run}
use pingu_os.Filesystem.Fat.Clusters.RoundTrip.{last_part, write_cluster-Written}

module _ {D M : Type 0} (dev : Disk D) (mem : Allocator M) {count : ℕ} (k : IsDisk dev count) where
  -- A write that succeeds and leaves the first `n` bytes of a buffer at the start of `m` sectors
  -- from `s` on; no other sector changes, and nothing but the disk.
  pub data Stored (fs : Fat32 D M) (s m n : ℕ) (buffer : Bytes)
      : Option (FsError × Fat32 D M) → Type 0 where
    stored :
        {d : D}
        → take n (run dev mem k d s m) ≡ take n buffer
        → ((t : ℕ) → t < s ⊎ (s + m ≤ t) → k.sector d t ≡ k.sector fs.disk t)
        → Stored fs s m n buffer (some (success, record fs { disk = d }))

  outside : (t s m n : ℕ) → n ≤ 512 * m → t < s ⊎ (s + m ≤ t) → t < s ⊎ (n ≤ 512 * (t - s))
  outside t s m n within (inl before) = inl before
  outside t s m n within (inr behind) = inr (omega (arith, within, behind))

  Written-Stored :
      (fs : Fat32 D M) (s m q r : ℕ) (buffer : Bytes) {o : Option (FsError × Fat32 D M)}
      → r < 512
      → 512 * q + r ≤ 512 * m
      → 512 * q + r ≤ length buffer
      → Written dev mem k fs s q r buffer o
      → Stored fs s m (512 * q + r) buffer o
  Written-Stored fs s m q r buffer small within there (written {d} front tail rest) =
      stored
        (take-run dev mem k d s q r m small within
          ∙ ap₂ (λ x y. x ++ y) front
              (last_part dev mem k r (k.sector d (s + q)) (drop (512 * q) buffer)
                (omega (arith, there, length-drop (512 * q) buffer)) tail)
          ∙ sym (take_add (512 * q) r buffer))
        (λ t apart. rest t (outside t s m (512 * q + r) within apart))

  pub write_cluster-Stored :
      (fs : Fat32 D M) (c n : ℕ) (buffer : Bytes)
      → fs.bpb.bytes_per_sector ≡ 512
      → first_sector fs c + fs.bpb.sectors_per_cluster ≤ count
      → count ≤ 2 ^ 28
      → n ≤ 512 * fs.bpb.sectors_per_cluster
      → n ≤ length buffer
      → Stored fs
          (first_sector fs c)
          fs.bpb.sectors_per_cluster
          n
          buffer
          (write_cluster dev mem fs c buffer 0 n)
  write_cluster-Stored fs c n buffer bytes on limit within there =
      let at = first_sector fs c in
      let m = fs.bpb.sectors_per_cluster in
      let parts : 512 * (n / 512) + n % 512 ≡ n = omega arith in
      let size : cluster_size fs ≡ 512 * m = ap (λ z. m * z) bytes ∙ omega arith in
      subst (λ z. Stored fs at m z buffer (write_cluster dev mem fs c buffer 0 z)) parts
        (Written-Stored fs at m (n / 512) (n % 512) buffer (omega arith) (omega (arith, within))
          (omega (arith, there))
          (write_cluster-Written dev mem k fs c (n / 512) (n % 512) buffer bytes
            (omega (arith, within, on)) limit (omega arith) (omega (arith, size, within))
            (omega (arith, there))))
