-- ===== src/Filesystem/Fat/Write/Steps.antt =====
-- Steps of `write`: the clusters are counted, and the entry of the file is written back.
use native.Mathlib.Nat.{div-add-mod, mod-lt, mul-suc}
use pingu_os.Common.{
  ℕ, zero, suc, ◌+◌, ◌*◌, ◌/◌, ◌%◌, ◌^◌, ◌≤◌, ◌<◌, ◌≡◌, ◌≢◌, ◌⊎◌, inl, inr, ◌∙◌, subst, ap, arith,
  Option, some, ◌>>=◌, List, [], ◌∷◌, ◌++◌, ◌==◌, if◌then◌else◌, length, take, length-append,
}
use pingu_os.Common.Bytes.{Bytes}
use pingu_os.Allocator.{Allocator}
use pingu_os.Drivers.Disk.{Disk, IsDisk, sector_size}
use pingu_os.Filesystem.{FsError, FileHandle}
use pingu_os.Filesystem.Fat.{Fat32, DirectoryEntryFat32, entry_bytes}
use pingu_os.Filesystem.Fat.Table.Links.{HasTable, entry, get_next_cluster_lem}
use pingu_os.Filesystem.Fat.Clusters.{cluster_size, first_sector, write_cluster}
use pingu_os.Filesystem.Fat.Clusters.RoundTrip.{HasRoom}
use pingu_os.Filesystem.Fat.Clusters.Partial.{part, Returns, returns, write_cluster-Returns}
use pingu_os.Filesystem.Fat.Files.{count_chain}
use pingu_os.Filesystem.Fat.Files.Chains.{ChainOf, stop, step, HasTable-buffer, EnoughMemory}
use pingu_os.Filesystem.Fat.Files.Area.{HasData, InData, InData-room}
use pingu_os.Filesystem.Fat.Write.{update_entry}

-- As many clusters as the loop counts on have room for the bytes.
pub needed_lem : (n size clusters : ℕ) → 0 < size → clusters ≡ n / size + 1 → n ≤ size * clusters
needed_lem n size clusters some_bytes exact =
    let split : size * clusters ≡ size * (n / size) + size =
      ap (λ z. size * z) (exact ∙ omega arith) ∙ mul-suc size (n / size) in
    omega (arith, split, div-add-mod n size, mod-lt n some_bytes)

length-entry_bytes : (e : DirectoryEntryFat32) → length e.name ≡ 11 → length (entry_bytes e) ≡ 32
unfolding entry_bytes
length-entry_bytes e named = length-append e.name _ ∙ omega (arith, named)

module _ {D M : Type 0} (dev : Disk D) (mem : Allocator M) {count : ℕ} (k : IsDisk dev count) where
  -- The clusters of a chain are counted.
  pub count_lem :
      (fuel : ℕ) (fs : Fat32 D M) (needed c so_far last_needed last_valid : ℕ) (cs : List ℕ)
      → HasTable dev k fs
      → ChainOf dev k fs c cs
      → length cs < fuel
      → (l : ℕ) × (v : ℕ) × (buf : Bytes) × (length buf ≡ sector_size)
        × (count_chain dev fuel fs needed c so_far last_needed last_valid
            ≡ some (so_far + length cs, l, v, record fs { sector_buf = buf }))
  unfolding count_chain
  count_lem zero fs needed c so_far last_needed last_valid cs t chain enough =
      absurd (omega (arith, enough))
  count_lem (suc fuel) fs needed c so_far last_needed last_valid [] t (stop end) enough =
      let same : so_far ≡ so_far + 0 = omega arith in
      (
        last_needed,
        last_valid,
        fs.sector_buf,
        t.buffer,
        rw end (ap (λ n. some (n, last_needed, last_valid, fs)) same),
      )
  count_lem (suc fuel) fs needed c so_far last_needed last_valid (d ∷ cs) t (step used on rest)
        enough =
      let sector = k.sector fs.disk (fs.fat_start + c / 128) in
      let fs1 = record fs { sector_buf = sector } in
      let t1 = HasTable-buffer dev k fs sector (k.full_sector fs.disk (fs.fat_start + c / 128)) t in
      let (l, v, buf, full, counted) =
        count_lem fuel fs1 needed (entry dev k fs c % 2 ^ 28) (so_far + 1)
          (if so_far + 1 == needed then c else last_needed) c cs t1 rest (omega (arith, enough)) in
      let more : so_far + 1 + length cs ≡ so_far + suc (length cs) = omega arith in
      (
        l,
        v,
        buf,
        full,
        rw (used, get_next_cluster_lem dev k fs t c on)
            (counted ∙ ap (λ n. some (n, l, v, record fs { sector_buf = buf })) more),
      )

  -- The entry of a file is written back: no sector outside its cluster changes.
  pub data Updated (fs : Fat32 D M) (cluster : ℕ) : Option (Fat32 D M) → Type 0 where
    updated :
        {after : D} {heap : M}
        → ((t : ℕ)
            → t < first_sector fs cluster
              ⊎ (first_sector fs cluster + fs.bpb.sectors_per_cluster ≤ t)
            → k.sector after t ≡ k.sector fs.disk t)
        → Updated fs cluster (some (record fs { disk = after; heap = heap }))

  Returns-Updated :
      (fs : Fat32 D M) (cluster i : ℕ) (image : Bytes) {o : Option (FsError × Fat32 D M)}
      → i < fs.bpb.sectors_per_cluster
      → Returns dev mem k fs (first_sector fs cluster + i) image o
      → Updated fs cluster (o >>= λ (err, fs'). some fs')
  Returns-Updated fs cluster i image inside (returns (part here rest)) = updated (λ t aside.
      rest t (elsewhere t (first_sector fs cluster) fs.bpb.sectors_per_cluster inside aside))
    where
      elsewhere : (t s m : ℕ) → i < m → t < s ⊎ (s + m ≤ t) → s + i ≢ t
      elsewhere t s m inside (inl before) e = omega (arith, before, e)
      elsewhere t s m inside (inr behind) e = omega (arith, behind, inside, e)

  pub update_entry-Updated :
      (fs : Fat32 D M) (handle : FileHandle) (top cluster index : ℕ) (e : DirectoryEntryFat32)
      → EnoughMemory dev k mem
      → HasData fs count top
      → HasTable dev k fs
      → InData top cluster
      → 32 * index + 32 ≤ 512 * fs.bpb.sectors_per_cluster
      → length e.name ≡ 11
      → Updated fs cluster (update_entry dev mem fs handle (cluster, index, e))
  unfolding update_entry
  update_entry-Updated fs handle top cluster index e memory area t inside within named =
      let (b, got) = memory fs.heap in
      let i = index / 16 in
      let o = 32 * (index % 16) in
      let m = fs.bpb.sectors_per_cluster in
      let bytes = entry_bytes (record e { size = handle.size }) in
      let place : 512 * i + o ≡ 32 * index = omega arith in
      let sector : i < m = omega (arith, within) in
      let size : cluster_size fs ≡ 512 * m = ap (λ z. m * z) t.bytes ∙ omega arith in
      let room : HasRoom dev mem k fs cluster i = record {
        bytes = t.bytes;
        on = omega (arith, sector, InData-room fs count top area cluster inside);
        addressable = area.addressable;
      } in
      Returns-Updated fs cluster i _ sector (
        subst
          (λ z.
            Returns dev mem k fs (first_sector fs cluster + i)
              (take o (k.sector fs.disk (first_sector fs cluster + i)) ++ take 32 bytes)
              (write_cluster dev mem fs cluster bytes z 32))
          place
          (write_cluster-Returns dev mem k fs cluster i o 32 bytes b room (omega arith)
            (omega arith) (omega (arith, size, within))
            (omega (arith, length-entry_bytes (record e { size = handle.size }) named))
            (ap (λ z. (mem.malloc fs.heap z).0) t.bytes ∙ got)))
