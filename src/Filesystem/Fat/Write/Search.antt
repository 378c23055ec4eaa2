-- ===== src/Filesystem/Fat/Write/Search.antt =====
-- `find_directory_entry`, where the first cluster of the directory has the entry.
use pingu_os.Common.{
  ℕ, zero, suc, ◌+◌, ◌*◌, ◌/◌, ◌≤◌, ◌<◌, ◌≡◌, refl, ◌∙◌, subst, ap, arith, Bool, true, false,
  Option, none, some, ◌==◌, if◌then◌else◌, length, take, drop, length-take, length-drop,
}
use pingu_os.Common.Bytes.{Bytes, fill, fill_all, take_all}
use pingu_os.Allocator.{Allocator, IsAllocator, Buffer}
use pingu_os.Drivers.Disk.{Disk, IsDisk}
use pingu_os.Filesystem.{FsError, success, FileHandle}
use pingu_os.Filesystem.Fat.{Fat32, parse_entry, dir_entry_size}
use pingu_os.Filesystem.Fat.Clusters.{cluster_size, first_sector, read_cluster}
use pingu_os.Filesystem.Fat.Files.{read}
use pingu_os.Filesystem.Fat.Files.Chains.{EnoughMemory}
use pingu_os.Filesystem.Fat.Clusters.Slices.{cluster_bytes}
use pingu_os.Filesystem.Fat.Entries.{
  entry_cluster, find_in, find_loop, find_directory_in, find_directory_entry,
}
use pingu_os.Filesystem.Fat.Directory.{entry_at}
use pingu_os.Filesystem.Fat.Clusters.RoundTrip.{Reads, reads, read_ok}
use pingu_os.Filesystem.Fat.Clusters.Slices.{OnDisk, read_cluster-cluster_bytes}
use pingu_os.Filesystem.Fat.Clusters.Runs.{length-run}

-- What is found is one of the entries that are looked at.
pub find_in-bound :
    (rounds i : ℕ) (buf : Bytes) (start j : ℕ)
    → find_in rounds i buf start ≡ some j
    → j < i + rounds
unfolding find_in
find_in-bound zero i buf start j h = absurd (ground (arith, h))
find_in-bound (suc rounds) i buf start j h =
    here_or_later (entry_cluster (entry_at buf i) == start)
      (λ e. omega (arith, find_in-bound rounds (i + 1) buf start j e)) h
  where
    here_or_later :
        (b : Bool) {later : Option ℕ}
        → (later ≡ some j → j < i + suc rounds)
        → (if b then some i else later) ≡ some j
        → j < i + suc rounds
    here_or_later true rest e = ground (arith, e)
    here_or_later false rest e = rest e

pick {ℓ} :
    {A : Type ℓ} (v : Option ℕ) (i : ℕ) (f : ℕ → A) (rest : Option A)
    → v ≡ some i
    → (elim v [ some j ↦ some (f j) | none ↦ rest ]) ≡ some (f i)
pick none i f rest h = absurd (ground (arith, h))
pick (some j) i f rest h = let same : j ≡ i = ground (arith, h) in ap (λ n. some (f n)) same

pub length-name :
    (buf : Bytes) (i : ℕ) → 32 * i + 32 ≤ length buf → length (entry_at buf i).name ≡ 11
unfolding entry_at parse_entry
length-name buf i within =
    length-take 11 (take 32 (drop (32 * i) buf))
    ∙ omega (arith, length-take 32 (drop (32 * i) buf), length-drop (32 * i) buf, within)

module _ {D M : Type 0} (dev : Disk D) (mem : Allocator M) {count : ℕ} (k : IsDisk dev count) where
  read_result :
      (fs : Fat32 D M) (bytes : Bytes) {o : Option (FsError × Bytes × Fat32 D M)}
      → Reads dev mem k fs bytes o
      → (heap : M) × (o ≡ some (success, bytes, record fs { heap = heap }))
  read_result fs bytes (reads (read_ok {heap = heap} same)) =
      (heap, ap (λ b. some (success, b, record fs { heap = heap })) same)

  module _ (al : IsAllocator mem) (memory : EnoughMemory dev k mem) where
    read_whole :
        (fs : Fat32 D M) (cluster : ℕ)
        → OnDisk dev mem k fs cluster
        → (heap : M) × (read_cluster dev mem fs cluster 0 (cluster_size fs)
            ≡ some (success, cluster_bytes dev mem k fs cluster, record fs { heap = heap }))
    read_whole fs cluster on =
        let bytes = cluster_bytes dev mem k fs cluster in
        let m = fs.bpb.sectors_per_cluster in
        let size : cluster_size fs ≡ 512 * m = ap (λ z. m * z) on.bytes ∙ omega arith in
        let (b, got) = memory fs.heap in
        let whole : take (cluster_size fs) bytes ≡ bytes =
          take_all (cluster_size fs) bytes
            (omega (arith, size, length-run dev mem k fs.disk (first_sector fs cluster) m)) in
        read_result fs bytes (
          subst (λ l. Reads dev mem k fs l (read_cluster dev mem fs cluster 0 (cluster_size fs)))
            whole
            (read_cluster-cluster_bytes dev mem k fs cluster 0 (cluster_size fs) b al on
              (omega (arith, size)) (ap (λ z. (mem.malloc fs.heap z).0) on.bytes ∙ got)))

    find_loop_lem :
        (fuel : ℕ) (fs : Fat32 D M) (cluster start i : ℕ) (buf : Bytes)
        → OnDisk dev mem k fs cluster
        → length buf ≡ cluster_size fs
        → find_in (cluster_size fs / dir_entry_size) 0 (cluster_bytes dev mem k fs cluster) start
          ≡ some i
        → (heap : M) × (find_loop dev mem (suc fuel) fs cluster start buf
            ≡ some (
              (cluster, i, entry_at (cluster_bytes dev mem k fs cluster) i),
              record fs { heap = heap },
            ))
    unfolding find_loop
    find_loop_lem fuel fs cluster start i buf on sized found =
        let bytes = cluster_bytes dev mem k fs cluster in
        let m = fs.bpb.sectors_per_cluster in
        let size : cluster_size fs ≡ 512 * m = ap (λ z. m * z) on.bytes ∙ omega arith in
        let (heap, read) = read_whole fs cluster on in
        let stored : fill buf bytes ≡ bytes =
          fill_all buf bytes (
            omega (arith, length-run dev mem k fs.disk (first_sector fs cluster) m, sized, size)) in
        let there : find_in (cluster_size fs / dir_entry_size) 0 (fill buf bytes) start ≡ some i =
          ap (λ z. find_in (cluster_size fs / dir_entry_size) 0 z start) stored ∙ found in
        (
          heap,
          rw read (
              pick (find_in (cluster_size fs / dir_entry_size) 0 (fill buf bytes) start) i
                (λ j. ((cluster, j, entry_at (fill buf bytes) j), record fs { heap = heap })) _
                there
              ∙ ap (λ z. some ((cluster, i, entry_at z i), record fs { heap = heap })) stored),
        )

    -- `find_directory_entry` where there is memory for a cluster, and an entry of the first cluster of
    -- the directory begins with the handle's cluster: it gives the first one, and changes nothing but
    -- the heap.
    pub find_directory_entry_lem :
        (fuel : ℕ) (fs : Fat32 D M) (handle : FileHandle) (i : ℕ) (b : Buffer)
        → (mem.malloc fs.heap (cluster_size fs)).0 ≡ some b
        → OnDisk dev mem k fs handle.parent_cluster
        → find_in
            (cluster_size fs / dir_entry_size)
            0
            (cluster_bytes dev mem k fs handle.parent_cluster)
            handle.start_cluster
          ≡ some i
        → (heap : M) × (find_directory_entry dev mem (suc fuel) fs handle
            ≡ some (
              success,
              some (
                handle.parent_cluster,
                i,
                entry_at (cluster_bytes dev mem k fs handle.parent_cluster) i,
              ),
              record fs { heap = heap },
            ))
    unfolding find_directory_entry find_directory_in
    find_directory_entry_lem fuel fs handle i b block on found =
        let fs1 = record fs { heap = (mem.malloc fs.heap (cluster_size fs)).1 } in
        let there : OnDisk dev mem k fs1 handle.parent_cluster = record {
          bytes = on.bytes;
          on = on.on;
          addressable = on.addressable;
        } in
        let (heap, looked) =
          find_loop_lem fuel fs1 handle.parent_cluster handle.start_cluster i b.bytes there
            (al.sized fs.heap (cluster_size fs) block) found in
        (mem.free heap b.addr, rw (block, looked) refl)
