-- ===== src/Filesystem/Fat/Write/Whole.antt =====
-- `write` in the mode WRITE: what is written is read back.
use pingu_os.Common.{
  ℕ, zero, suc, ◌+◌, ◌*◌, ◌/◌, ◌≤◌, ◌<◌, ◌≡◌, ◌≢◌, ◌∙◌, sym, subst, ap, arith, false, some, List,
  ◌∷◌, ◌==◌, ltb, length, take, get_or,
}
use pingu_os.Common.Bytes.{Bytes}
use pingu_os.Allocator.{Allocator, IsAllocator, Buffer}
use pingu_os.Drivers.Disk.{Disk, IsDisk}
use pingu_os.Filesystem.{FileHandle, write_mode}
use pingu_os.Filesystem.Fat.{Fat32, DirectoryEntryFat32, dir_entry_size}
use pingu_os.Filesystem.Fat.Clusters.{cluster_size, first_sector}
use pingu_os.Filesystem.Fat.Files.Chains.{EnoughMemory}
use pingu_os.Filesystem.Fat.Clusters.Slices.{cluster_bytes}
use pingu_os.Filesystem.Fat.Files.Area.{InData-room}
use pingu_os.Filesystem.Fat.Files.Overwriting.{fill_chain-Filled, ReadsBack}
use pingu_os.Filesystem.Fat.Write.Behind.{
  Overwrites, Overwrites-within, ReadsBack-within, after_fill,
}
use pingu_os.Filesystem.Fat.Write.Steps.{needed_lem, count_lem}
use pingu_os.Filesystem.Fat.Write.Search.{find_in-bound, length-name, find_directory_entry_lem}
use pingu_os.Filesystem.Fat.Entries.{find_in}
use pingu_os.Filesystem.Fat.Directory.{entry_at}
use pingu_os.Filesystem.Fat.Clusters.Runs.{length-run}
use pingu_os.Filesystem.Fat.Files.Following.{if_not, if_false}
use pingu_os.Filesystem.Fat.Write.{write, write_found, write_at, resize_chain, write_whole}

module _ {D M : Type 0} (dev : Disk D) (mem : Allocator M) {count : ℕ} (k : IsDisk dev count) where
  module _ (al : IsAllocator mem) (memory : EnoughMemory dev k mem) where
    read-write_whole :
        (fuel : ℕ) (fs : Fat32 D M) (handle : FileHandle) (top n cluster index : ℕ)
        (e : DirectoryEntryFat32) (cs : List ℕ) (buffer : Bytes)
        → Overwrites dev mem k fs handle top cluster n cs
        → length cs ≡ n / cluster_size fs + 1
        → 0 < n
        → n ≤ length buffer
        → length cs < fuel
        → 32 * index + 32 ≤ 512 * fs.bpb.sectors_per_cluster
        → length e.name ≡ 11
        → ReadsBack dev mem k fuel fs handle top
            (cluster ∷ cs)
            cs
            n
            (take n buffer)
            (write_whole dev mem fuel fs handle buffer n (cluster, index, e))
    unfolding write_whole resize_chain
    read-write_whole fuel fs handle top n cluster index e cs buffer w exact some_bytes there enough
          within named =
        let needed = n / cluster_size fs + 1 in
        let (l, v, buf, full, counted) =
          count_lem dev mem k fuel fs needed handle.start_cluster 0 0 0 cs w.table w.chain enough in
        let not_less : ltb needed (0 + length cs) ≡ false = ground (arith, exact) in
        let not_more : ltb (0 + length cs) needed ≡ false = ground (arith, exact) in
        let size : cluster_size fs ≡ 512 * fs.bpb.sectors_per_cluster =
          ap (λ z. fs.bpb.sectors_per_cluster * z) w.table.bytes ∙ omega arith in
        let fits : n ≤ 512 * fs.bpb.sectors_per_cluster * length cs =
          subst (λ z. n ≤ z * length cs) size
            (needed_lem n (cluster_size fs) (length cs) (omega (arith, size, w.area.some_sectors))
              exact) in
        let w1 = Overwrites-within dev mem k fs handle top cluster n cs fs.heap buf full w in
        rw (counted, not_less, not_more)
          (ReadsBack-within dev mem k fuel fs handle top (cluster ∷ cs) cs n (take n buffer) fs.heap
            buf
            (after_fill dev mem k al memory fuel (record fs { sector_buf = buf }) handle top n
              cluster index e cs buffer w1 some_bytes fits enough within named
              (fill_chain-Filled dev mem k fuel (record fs { sector_buf = buf }) handle top
                handle.start_cluster n cs buffer w1.area w1.table w1.chain w.inside w.distinct there
                fits w.small enough)))

    -- `write` in the mode WRITE, of `n` bytes, at least one, to an open file that has n / cluster size
    -- + 1 clusters, no one twice. These are as many as the bytes need, and one more where `n` is a
    -- multiple of the size of a cluster. The first cluster of its directory is none of them and has
    -- an entry for it, which is not the mark of the end. The size of the handle and `n` together are
    -- less than 2 ^ 32. The write succeeds, and a `read` of `n` bytes behind it gives those bytes. The size of the handle has
    -- grown by `n`, whatever it was before. The table stays, and so do all clusters but those of the
    -- file and the one with the entry. The volume's clusters lie behind the table and end on the disk,
    -- there is memory for a cluster at first and for a sector throughout, and the loops may run more
    -- often than the file has clusters.
    pub read-write :
        (fuel : ℕ) (fs : Fat32 D M) (handle : FileHandle) (top n i : ℕ) (cs : List ℕ)
        (buffer : Bytes) (b : Buffer)
        → let directory = cluster_bytes dev mem k fs handle.parent_cluster in
          Overwrites dev mem k fs handle top handle.parent_cluster n cs
          → length cs ≡ n / cluster_size fs + 1
          → find_in (cluster_size fs / dir_entry_size) 0 directory handle.start_cluster ≡ some i
          → get_or (entry_at directory i).name 0 0 ≢ 0
          → (mem.malloc fs.heap (cluster_size fs)).0 ≡ some b
          → 0 < n
          → n ≤ length buffer
          → length cs < fuel
          → ReadsBack dev mem k fuel fs handle top
              (handle.parent_cluster ∷ cs)
              cs
              n
              (take n buffer)
              (write dev mem fuel fs handle buffer n write_mode)
    unfolding write write_found write_at
    read-write zero fs handle top n i cs buffer b w exact found named block some_bytes there
          enough =
        absurd (omega (arith, enough))
    read-write (suc fuel) fs handle top n i cs buffer b w exact found named block some_bytes there
          enough =
        let parent = handle.parent_cluster in
        let m = fs.bpb.sectors_per_cluster in
        let directory = cluster_bytes dev mem k fs parent in
        let size : cluster_size fs ≡ 512 * m = ap (λ z. m * z) w.table.bytes ∙ omega arith in
        let (heap, looked) =
          find_directory_entry_lem dev mem k al memory fuel fs handle i b block
            (record {
              bytes = w.table.bytes;
              on = InData-room fs count top w.area parent w.at;
              addressable = w.area.addressable;
            })
            found in
        let fs1 = record fs { heap = heap } in
        let within : 32 * i + 32 ≤ 512 * m = omega (
          arith,
          find_in-bound (cluster_size fs / dir_entry_size) 0 directory handle.start_cluster i found,
          size,
        ) in
        let name =
          length-name directory i
            (omega (arith, within, length-run dev mem k fs.disk (first_sector fs parent) m)) in
        let w1 =
          Overwrites-within dev mem k fs handle top parent n cs heap fs.sector_buf w.table.buffer
            w in
        let is_named : (get_or (entry_at directory i).name 0 0 == 0) ≡ false =
          ground (arith, named) in
        subst
          (λ o. ReadsBack dev mem k (suc fuel) fs handle top (parent ∷ cs) cs n (take n buffer) o)
          (sym (
            if_not handle.valid _ _ w.valid
            ∙ rw looked (if_false (get_or (entry_at directory i).name 0 0 == 0) _ _ is_named)))
          (ReadsBack-within dev mem k (suc fuel) fs handle top (parent ∷ cs) cs n (take n buffer)
            heap fs.sector_buf
            (read-write_whole (suc fuel) fs1 handle top n parent i (entry_at directory i) cs buffer
              w1 exact some_bytes there enough within name))
