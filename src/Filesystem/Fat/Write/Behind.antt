-- ===== src/Filesystem/Fat/Write/Behind.antt =====
-- What holds behind the last loop of `write` and behind the update of the file's entry.
use pingu_os.Common.{
  ℕ, ◌+◌, ◌*◌, ◌^◌, ◌≤◌, ◌<◌, ◌≡◌, ◌⊎◌, inl, refl, ◌∙◌, sym, subst, ap, ap₂, arith, true, Option,
  some, ◌>>=◌, List, [], ◌∷◌, ◌++◌, if◌then◌else◌, length, take,
}
use pingu_os.Common.Bytes.{Bytes}
use pingu_os.Allocator.{Allocator, IsAllocator}
use pingu_os.Drivers.Disk.{Disk, IsDisk, sector_size}
use pingu_os.Filesystem.{FsError, success, is_success, FileHandle}
use pingu_os.Filesystem.Fat.{Fat32, DirectoryEntryFat32}
use pingu_os.Filesystem.Fat.Table.Links.{HasTable}
use pingu_os.Filesystem.Fat.Clusters.{cluster_size, first_sector}
use pingu_os.Filesystem.Fat.Files.{read}
use pingu_os.Filesystem.Fat.Files.Chains.{ChainOf, Absent, Distinct, HasTable-buffer, EnoughMemory}
use pingu_os.Filesystem.Fat.Clusters.Slices.{cluster_bytes}
use pingu_os.Filesystem.Fat.Files.Contents.{contents, HasRead, last_cluster}
use pingu_os.Filesystem.Fat.Files.Area.{HasData, HasData-within, InData, AllInData, InData-behind}
use pingu_os.Filesystem.Fat.Files.Filling.{Filled, filled, other_lem, HasTable-disk}
use pingu_os.Filesystem.Fat.Files.Overwriting.{rewound, ReadsBack, reads_back, read_back}
use pingu_os.Filesystem.Fat.Write.Steps.{Updated, updated, update_entry-Updated}
use pingu_os.Filesystem.Fat.Table.Allocate.{HasTable-heap}
use pingu_os.Filesystem.Fat.Write.{update_entry}

module _ {D M : Type 0} (dev : Disk D) (mem : Allocator M) {count : ℕ} (k : IsDisk dev count) where
  -- What the clusters of a chain hold behind a change of another cluster.
  contents-beside :
      (fs : Fat32 D M) (top c : ℕ) (cs : List ℕ) (d : D)
      → HasData fs count top
      → InData top c
      → AllInData top cs
      → Absent c cs
      → ((t : ℕ)
          → t < first_sector fs c ⊎ (first_sector fs c + fs.bpb.sectors_per_cluster ≤ t)
          → k.sector d t ≡ k.sector fs.disk t)
      → contents dev mem k (record fs { disk = d }) cs ≡ contents dev mem k fs cs
  contents-beside fs top c [] d area inside all absent same = refl
  contents-beside fs top c (e ∷ es) d area inside all absent same =
      ap₂ (λ x y. x ++ y) (other_lem dev mem k fs top c e d area inside all.0 absent.0 same)
        (contents-beside fs top c es d area inside all.1 absent.1 same)

  -- A file to be written over with `n` bytes: its clusters are among those of the volume, no one
  -- twice, and the cluster with its entry is not one of them.
  pub record Overwrites (fs : Fat32 D M) (handle : FileHandle) (top cluster n : ℕ) (cs : List ℕ)
      : Type 0 where
    pub area : HasData fs count top
    pub table : HasTable dev k fs
    pub chain : ChainOf dev k fs handle.start_cluster cs
    pub inside : AllInData top cs
    pub distinct : Distinct cs
    pub at : InData top cluster
    pub apart : Absent cluster cs
    pub valid : handle.valid ≡ true
    pub small : handle.size + n < 2 ^ 32

  pub Overwrites-within :
      (fs : Fat32 D M) (handle : FileHandle) (top cluster n : ℕ) (cs : List ℕ) (heap : M)
      (buf : Bytes)
      → length buf ≡ sector_size
      → Overwrites fs handle top cluster n cs
      → Overwrites (record fs { heap = heap; sector_buf = buf }) handle top cluster n cs
  Overwrites-within fs handle top cluster n cs heap buf full w = record {
    area = HasData-within fs count top fs.disk heap buf w.area;
    table =
        HasTable-buffer dev k (record fs { heap = heap }) buf full
          (HasTable-heap dev mem k fs heap w.table);
    chain = w.chain;
    inside = w.inside;
    distinct = w.distinct;
    at = w.at;
    apart = w.apart;
    valid = w.valid;
    small = w.small;
  }

  pub ReadsBack-within :
      (fuel : ℕ) (fs : Fat32 D M) (handle : FileHandle) (top : ℕ) (changed cs : List ℕ) (n : ℕ)
      (bytes : Bytes) (heap : M) (buf : Bytes) {o : Option (FsError × FileHandle × Fat32 D M)}
      → ReadsBack dev mem k fuel
          (record fs { heap = heap; sector_buf = buf })
          handle
          top
          changed
          cs
          n
          bytes
          o
      → ReadsBack dev mem k fuel fs handle top changed cs n bytes o
  ReadsBack-within fuel fs handle top changed cs n bytes heap buf
        (reads_back grown table others back) =
      reads_back grown table others back

  module _ (al : IsAllocator mem) (memory : EnoughMemory dev k mem) where
    -- Behind the last loop and the update of the entry.
    after_update :
        (fuel : ℕ) (fs : Fat32 D M) (handle : FileHandle) (top n size cluster : ℕ) (cs : List ℕ)
        (buffer : Bytes) (d : D) (buf : Bytes) {o : Option (Fat32 D M)}
        → Overwrites fs handle top cluster n cs
        → 0 < n
        → n ≤ 512 * fs.bpb.sectors_per_cluster * length cs
        → length cs < fuel
        → size ≡ handle.size + n
        → length buf ≡ sector_size
        → take n (contents dev mem k (record fs { disk = d }) cs) ≡ take n buffer
        → ((t : ℕ) → t < fs.data_start → k.sector d t ≡ k.sector fs.disk t)
        → ((e : ℕ)
            → InData top e
            → Absent e cs
            → cluster_bytes dev mem k (record fs { disk = d }) e ≡ cluster_bytes dev mem k fs e)
        → Updated dev mem k (record fs { disk = d; sector_buf = buf }) cluster o
        → ReadsBack dev mem k fuel fs handle top
            (cluster ∷ cs)
            cs
            n
            (take n buffer)
            (o >>= λ fs3. some (success, rewound dev mem k (record handle { size = size }), fs3))
    after_update fuel fs handle top n size cluster cs buffer d buf w some_bytes fits enough grown
          full bytes table others (updated {after} {heap} rest) =
        let fs1 = record fs { disk = d; sector_buf = buf } in
        let area1 = HasData-within fs count top d fs.heap buf w.area in
        let table' : (t : ℕ) → t < fs.data_start → k.sector after t ≡ k.sector fs.disk t = λ t low.
          rest t (inl (omega (arith, low, InData-behind fs count top w.area cluster w.at)))
          ∙ table t low in
        reads_back grown table'
          (λ e i absent.
            other_lem dev mem k fs1 top cluster e after area1 w.at i (λ h. absent.0 (sym h)) rest
            ∙ others e i absent.1)
          (subst
            (λ l.
              HasRead dev mem k (record fs { disk = after; heap = heap; sector_buf = buf })
                (rewound dev mem k (record handle { size = size })) n
                (last_cluster (cluster_size fs) cs 0 n) l
                (read dev mem fuel (record fs { disk = after; heap = heap; sector_buf = buf })
                  (rewound dev mem k (record handle { size = size })) n))
            (ap (take n) (contents-beside fs1 top cluster cs after area1 w.at w.inside w.apart rest)
              ∙ bytes)
            (read_back dev mem k fuel fs handle top n size cs after heap buf al memory w.area
              w.table w.chain w.inside w.valid some_bytes fits (omega (arith, grown))
              (omega (arith, grown, w.small)) enough full table'))

    pub after_fill :
        (fuel : ℕ) (fs : Fat32 D M) (handle : FileHandle) (top n cluster index : ℕ)
        (e : DirectoryEntryFat32) (cs : List ℕ) (buffer : Bytes)
        {o : Option (FsError × FileHandle × Fat32 D M)}
        → Overwrites fs handle top cluster n cs
        → 0 < n
        → n ≤ 512 * fs.bpb.sectors_per_cluster * length cs
        → length cs < fuel
        → 32 * index + 32 ≤ 512 * fs.bpb.sectors_per_cluster
        → length e.name ≡ 11
        → Filled dev mem k fs handle top cs n buffer o
        → ReadsBack dev mem k fuel fs handle top (cluster ∷ cs) cs n (take n buffer) (
            o >>= λ (err', handle', fs2).
            let back = record handle' { cluster = handle'.start_cluster; position = 0 } in
            (if is_success err'
              then (update_entry dev mem fs2 back (cluster, index, e) >>= λ fs3.
                  some (success, back, fs3))
              else some (err', handle', fs2)))
    after_fill fuel fs handle top n cluster index e cs buffer w some_bytes fits enough within named
          (filled {d} {buf} {size} grown full bytes table others) =
        let fs1 = record fs { disk = d; sector_buf = buf } in
        after_update fuel fs handle top n size cluster cs buffer d buf w some_bytes fits enough
          grown full bytes table others
          (update_entry-Updated dev mem k fs1 (rewound dev mem k (record handle { size = size }))
            top cluster index e memory (HasData-within fs count top d fs.heap buf w.area)
            (HasTable-buffer dev k (record fs { disk = d }) buf full
              (HasTable-disk dev mem k fs d w.table))
            w.at within named)
