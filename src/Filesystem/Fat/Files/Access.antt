-- ===== src/Filesystem/Fat/Files/Access.antt =====
-- `read` gives a file's bytes: from the handle's place on, behind a `seek`, and what it gives when a
-- read before it has ended with a cluster.
use native.Mathlib.Nat.{zero-div, div-add-mod, mul-add-div}
use pingu_os.Common.{
  ℕ, zero, suc, ◌+◌, ◌*◌, ◌-◌, ◌/◌, ◌%◌, ◌^◌, ◌≤◌, ◌<◌, ◌≡◌, refl, ◌∙◌, sym, subst, ap, arith, true,
  false, List, [], ◌∷◌, leb, length, take, drop, get_or, drop_add, length-drop,
}
use pingu_os.Common.Bytes.{Bytes}
use pingu_os.Allocator.{Allocator, IsAllocator}
use pingu_os.Drivers.Disk.{Disk, IsDisk, sector_size}
use pingu_os.Filesystem.{success, FileHandle}
use pingu_os.Filesystem.Fat.{Fat32}
use pingu_os.Filesystem.Fat.Table.Links.{HasTable}
use pingu_os.Filesystem.Fat.Clusters.{cluster_size, lesser}
use pingu_os.Filesystem.Fat.Files.{seek, read}
use pingu_os.Filesystem.Fat.Files.Chains.{ChainOf, EnoughMemory}
use pingu_os.Filesystem.Fat.Files.Contents.{
  contents, HasFile, HasFile-within, HasRead, HasRead-within, last_cluster,
}
use pingu_os.Filesystem.Fat.Files.Following.{
  seek_start, seek_on, follow_at, contents-drop, inside_chain, AllOnDisk-drop, get_or-drop,
}
use pingu_os.Filesystem.Fat.Files.Reading.{loop_lem}

last_place :
    (before o position n : ℕ)
    → before + o ≡ position
    → 0 < n
    → before + (o + n - 1) ≡ position + n - 1
last_place before o position n at some_bytes = omega (arith, at, some_bytes)

before_end :
    (before o position n top : ℕ)
    → before + o ≡ position
    → 0 < n
    → position + n ≤ top
    → before < top
before_end before o position n top at some_bytes within = omega (arith, at, some_bytes, within)

fits :
    (before o position n top : ℕ) {left : ℕ}
    → before + o ≡ position
    → position + n ≤ top
    → left ≡ top - before
    → o + n ≤ left
fits before o position n top at within rest = omega (arith, at, within, rest)

-- The number of bytes that a read of a file takes at a position: those that are asked for, or
-- those that the file still has.
abbrev pub amount : FileHandle → ℕ → ℕ → ℕ
amount handle position want = lesser (handle.size - position) want

module _ {D M : Type 0} (dev : Disk D) (mem : Allocator M) {count : ℕ} (k : IsDisk dev count) where
  pub sectors_lem :
      (fs : Fat32 D M) → HasTable dev k fs → cluster_size fs ≡ 512 * fs.bpb.sectors_per_cluster
  sectors_lem fs t = ap (λ z. fs.bpb.sectors_per_cluster * z) t.bytes ∙ omega arith

  module _ (al : IsAllocator mem) (memory : EnoughMemory dev k mem) where
    -- `read` of an open handle that stands before the end of its file. The handle's cluster begins
    -- a chain of clusters that lie on the disk, which holds the bytes to read from the handle's
    -- place in that cluster on, there is memory for a sector throughout, and the loop may run more
    -- often than the chain has clusters. Then the read succeeds, and gives exactly those bytes, as
    -- many as were asked for or as the file still has. The handle's position moves behind them, and
    -- its cluster to the one in which the last of them stands.
    pub read-contents :
        (fuel : ℕ) (fs : Fat32 D M) (handle : FileHandle) (want : ℕ) (cs : List ℕ)
        → HasFile dev mem k fs handle.cluster cs
        → handle.valid ≡ true
        → handle.position < handle.size
        → handle.size < 2 ^ 32
        → 0 < want
        → handle.position % cluster_size fs + amount handle handle.position want
          ≤ length (contents dev mem k fs cs)
        → length cs < fuel
        → let n = amount handle handle.position want in
          let o = handle.position % cluster_size fs in
          HasRead dev mem k fs handle
            (handle.position + n)
            (last_cluster (cluster_size fs) cs o n)
            (take n (drop o (contents dev mem k fs cs)))
            (read dev mem fuel fs handle want)
    unfolding read
    read-contents fuel fs handle want [] file valid inside small wanted within enough =
        absurd (ground (arith, inside, wanted, within))
    read-contents fuel fs handle want (d ∷ ds) file valid inside small wanted within enough =
        let n = amount handle handle.position want in
        let not_end : leb handle.size handle.position ≡ false = ground arith in
        let bound : handle.position + n < 2 ^ 32 = ground (arith, inside, small) in
        let some_left : 0 < n = ground (arith, inside, wanted) in
        simp (valid, not_end)
          (loop_lem dev mem k al memory fuel fs handle (cluster_size fs) handle.position
            handle.cluster n d ds [] refl file.some_bytes file.table file.chain file.disk within
            bound enough some_left)

    -- Behind a walk of the chain to the cluster of a position.
    read_behind :
        (fuel : ℕ) (fs : Fat32 D M) (handle : FileHandle) (position want c : ℕ) (cs : List ℕ)
        (buf : Bytes)
        → HasFile dev mem k fs handle.cluster cs
        → length buf ≡ sector_size
        → ChainOf dev k fs c (drop (position / cluster_size fs) cs)
        → handle.valid ≡ true
        → position < handle.size
        → handle.size < 2 ^ 32
        → 0 < want
        → position + amount handle position want ≤ length (contents dev mem k fs cs)
        → length cs < fuel
        → HasRead dev mem k fs handle
            (position + amount handle position want)
            (last_cluster (cluster_size fs) cs position (amount handle position want))
            (take (amount handle position want) (drop position (contents dev mem k fs cs)))
            (read dev mem fuel
              (record fs { sector_buf = buf })
              (record handle { cluster = c; position = position })
              want)
    read_behind fuel fs handle position want c cs buf file full chain valid inside small wanted
          within enough =
        let size = cluster_size fs in
        let n = amount handle position want in
        let i = position / size in
        let o = position % size in
        let there : HasFile dev mem k (record fs { sector_buf = buf }) c (drop i cs) = record {
          some_bytes = file.some_bytes;
          table = (HasFile-within dev mem k fs handle.cluster cs fs.heap buf full file).table;
          chain = chain;
          disk = AllOnDisk-drop dev mem k fs i cs file.disk;
        } in
        let parts : size * i + o ≡ position = div-add-mod position size in
        let sectors = sectors_lem fs file.table in
        let behind : drop o (contents dev mem k fs (drop i cs))
            ≡ drop position (contents dev mem k fs cs) =
          ap (drop o) (sym (contents-drop dev mem k fs size sectors i cs))
          ∙ sym (drop_add (size * i) o (contents dev mem k fs cs))
          ∙ ap (λ z. drop z (contents dev mem k fs cs)) parts in
        let left : length (contents dev mem k fs (drop i cs))
            ≡ length (contents dev mem k fs cs) - size * i =
          ap length (sym (contents-drop dev mem k fs size sectors i cs))
          ∙ length-drop (size * i) (contents dev mem k fs cs) in
        let last : last_cluster size (drop i cs) o n ≡ last_cluster size cs position n =
          get_or-drop cs i ((o + n - 1) / size) 0
          ∙ ap (λ z. get_or cs z 0)
              (sym (mul-add-div file.some_bytes i (o + n - 1))
                ∙ ap (λ z. z / size)
                    (last_place (size * i) o position n parts (ground (arith, inside, wanted)))) in
        HasRead-within dev mem k fs handle fs.heap buf position c refl last (ap (take n) behind) (
          read-contents fuel (record fs { sector_buf = buf })
            (record handle { cluster = c; position = position }) want (drop i cs) there valid inside
            small wanted
            (fits (size * i) o position n (length (contents dev mem k fs cs)) parts within left)
            (omega (arith, enough, length-drop i cs)))

    -- `seek` of an open handle at the start of its file, to a position before the end, and `read`
    -- behind it. The file's chain of clusters lies on the disk and holds the bytes to read, there is
    -- memory for a sector throughout, and the loop may run more often than the chain has clusters.
    -- Then both succeed, and the bytes are exactly those of the file from the position on, as many
    -- as were asked for or as the file still has. The handle's position moves behind them, and its
    -- cluster to the one in which the last of them stands.
    pub read-seek :
        (fuel : ℕ) (fs : Fat32 D M) (handle : FileHandle) (position want : ℕ) (cs : List ℕ)
        → HasFile dev mem k fs handle.cluster cs
        → handle.start_cluster ≡ handle.cluster
        → handle.valid ≡ true
        → position < handle.size
        → handle.size < 2 ^ 32
        → 0 < want
        → position + amount handle position want ≤ length (contents dev mem k fs cs)
        → length cs < fuel
        → let (err, handle', fs') = seek dev fs handle position in
          (err ≡ success)
          × HasRead dev mem k fs handle
              (position + amount handle position want)
              (last_cluster (cluster_size fs) cs position (amount handle position want))
              (take (amount handle position want) (drop position (contents dev mem k fs cs)))
              (read dev mem fuel fs' handle' want)
    read-seek fuel fs handle zero want cs file start valid inside small wanted within enough =
        let first : 0 / cluster_size fs ≡ 0 = zero-div (cluster_size fs) in
        rw (seek_start dev mem k fs handle valid) (
          refl,
          read_behind fuel fs handle 0 want handle.start_cluster cs fs.sector_buf file
              file.table.buffer
              (subst (λ i. ChainOf dev k fs handle.start_cluster (drop i cs)) (sym first)
                (subst (λ c. ChainOf dev k fs c cs) (sym start) file.chain))
              valid inside small wanted within enough,
        )
    read-seek fuel fs handle (suc before) want cs file start valid inside small wanted within
          enough =
        let position = suc before in
        let some_left : 0 < amount handle position want = ground (arith, inside, wanted) in
        let there : cluster_size fs * (position / cluster_size fs)
            < length (contents dev mem k fs cs) =
          before_end (cluster_size fs * (position / cluster_size fs)) (position % cluster_size fs)
            position (amount handle position want) (length (contents dev mem k fs cs))
            (div-add-mod position (cluster_size fs)) some_left within in
        let moved : 0 < position = omega arith in
        let up_to : position ≤ handle.size = omega (arith, inside) in
        let (c, buf, found, full, chain) =
          follow_at dev mem k (position / cluster_size fs) fs handle.cluster cs file.table
            file.chain
            (inside_chain dev mem k fs (cluster_size fs) (sectors_lem fs file.table)
              (position / cluster_size fs) cs there) in
        rw (seek_on dev mem k fs handle position c buf valid moved up_to found) (
          refl,
          read_behind fuel fs handle position want c cs buf file full chain valid inside small
              wanted within enough,
        )
