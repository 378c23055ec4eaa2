-- ===== src/Filesystem/Fat/Files/Reading.antt =====
-- The loop of `read` along a chain of clusters.
use native.Mathlib.Nat.{mod-lt}
use pingu_os.Common.{
  ℕ, zero, suc, ◌+◌, ◌*◌, ◌-◌, ◌/◌, ◌%◌, ◌^◌, ◌≤◌, ◌<◌, ◌≡◌, refl, ◌∙◌, sym, ap, arith, Bool, true,
  false, ◌||◌, List, [], ◌∷◌, ◌++◌, ◌==◌, leb, ltb, length, take, drop, append-nil, length-drop,
  length-append,
}
use pingu_os.Common.Bytes.{Bytes, take_all}
use pingu_os.Allocator.{Allocator, IsAllocator}
use pingu_os.Drivers.Disk.{Disk, IsDisk}
use pingu_os.Filesystem.{FileHandle}
use pingu_os.Filesystem.Fat.{Fat32, is_end_of_chain}
use pingu_os.Filesystem.Fat.Table.Links.{HasTable, InTable, entry, get_next_cluster_lem}
use pingu_os.Filesystem.Fat.Table.Allocate.{HasTable-heap}
use pingu_os.Filesystem.Fat.Clusters.{cluster_size, first_sector, lesser, read_cluster}
use pingu_os.Filesystem.Fat.Clusters.RoundTrip.{Reads}
use pingu_os.Filesystem.Fat.Clusters.Runs.{length-run}
use pingu_os.Filesystem.Fat.Clusters.Slices.{cluster_bytes, read_cluster-cluster_bytes}
use pingu_os.Filesystem.Fat.Files.{read_loop}
use pingu_os.Filesystem.Fat.Files.Contents.{contents, AllOnDisk, take-contents}
use pingu_os.Filesystem.Fat.Files.Rounds.{next_start, Loop, round_last, round_on}
use pingu_os.Filesystem.Fat.Files.Chains.{ChainOf, step, HasTable-buffer, EnoughMemory}

pub below_end : (c : ℕ) → is_end_of_chain c ≡ false → c < 0x0FFFFFF8
unfolding is_end_of_chain
below_end c used = ground arith

module _ {D M : Type 0} (dev : Disk D) (mem : Allocator M) {count : ℕ} (k : IsDisk dev count) where
  -- A cluster that a round of the loop reads from.
  pub record Round (fs : Fat32 D M) (size c : ℕ) : Type 0 where
    pub same : cluster_size fs ≡ size
    pub some_bytes : 0 < size
    pub table : HasTable dev k fs
    pub on : InTable dev k fs c
    pub used : c < 0x0FFFFFF8
    pub there : first_sector fs c + fs.bpb.sectors_per_cluster ≤ count

  sectors_lem :
      (fs : Fat32 D M) (size c : ℕ) → Round fs size c → size ≡ 512 * fs.bpb.sectors_per_cluster
  sectors_lem fs size c r =
      sym r.same ∙ ap (λ z. fs.bpb.sectors_per_cluster * z) r.table.bytes ∙ omega arith

  module _ (al : IsAllocator mem) (memory : EnoughMemory dev k mem) where
    iteration-Reads :
        (fs : Fat32 D M) (size c o n : ℕ)
        → Round fs size c
        → o + n ≤ size
        → Reads dev mem k fs
            (take n (drop o (cluster_bytes dev mem k fs c)))
            (read_cluster dev mem fs c o n)
    iteration-Reads fs size c o n r within =
        let (b, got) = memory fs.heap in
        let sectors = sectors_lem fs size c r in
        read_cluster-cluster_bytes dev mem k fs c o n b al
          (record { bytes = r.table.bytes; on = r.there; addressable = r.table.addressable })
          (omega (arith, within, sectors)) (ap (λ z. (mem.malloc fs.heap z).0) r.table.bytes ∙ got)

    pub iteration_lem :
        (fuel : ℕ) (fs : Fat32 D M) (handle : FileHandle) (size p c n : ℕ) (cs : List ℕ)
        (done : Bytes)
        → Round fs size c
        → 0 < n
        → 0 < fuel
        → p + n < 2 ^ 32
        → (size - p % size < n
            → (heap : M) (read_before : Bytes)
            → Loop dev mem k fuel
                (record fs { heap = heap; sector_buf = k.sector fs.disk (fs.fat_start + c / 128) })
                handle
                size
                (p + (size - p % size))
                (entry dev k fs c % 2 ^ 28)
                read_before
                (n - (size - p % size))
                cs)
        → (more : Bool) → ltb (size - p % size) n ≡ more
        → Loop dev mem k (suc fuel) fs handle size p c done n (c ∷ cs)
    unfolding read_loop
    iteration_lem fuel fs handle size p c n cs done r some_left enough small rest false is_last =
        let o = p % size in
        let not_done : ((n == 0) || leb 0x0FFFFFF8 c) ≡ false = ground (arith, some_left, r.used) in
        let to_read : lesser (size - o) n ≡ n = ground (arith, is_last) in
        let within : n ≤ size - o = ground (arith, is_last) in
        let inside : o < size = mod-lt p r.some_bytes in
        let sectors = sectors_lem fs size c r in
        let here = take n (drop o (cluster_bytes dev mem k fs c)) in
        let none_behind : n - (512 * fs.bpb.sectors_per_cluster - o) ≡ 0 =
          omega (arith, within, sectors) in
        let all : take n (drop o (contents dev mem k fs (c ∷ cs))) ≡ here =
          take-contents dev mem k fs c o n cs (omega (arith, inside, sectors))
          ∙ ap (λ z. here ++ take z (contents dev mem k fs cs)) none_behind
          ∙ append-nil here in
        rw (not_done, r.same, to_read)
          (round_last dev mem k fuel fs handle size p c n cs done here r.same r.table.buffer
            r.some_bytes enough within small (sym all)
            (iteration-Reads fs size c o n r (omega (arith, within, inside))))
    iteration_lem fuel fs handle size p c n cs done r some_left enough small rest true is_more =
        let o = p % size in
        let not_done : ((n == 0) || leb 0x0FFFFFF8 c) ≡ false = ground (arith, some_left, r.used) in
        let to_read : lesser (size - o) n ≡ size - o = ground (arith, is_more) in
        let more : size - o < n = ground (arith, is_more) in
        let inside : o < size = mod-lt p r.some_bytes in
        let sectors = sectors_lem fs size c r in
        let part = drop o (cluster_bytes dev mem k fs c) in
        let full : length part ≡ size - o =
          length-drop o (cluster_bytes dev mem k fs c)
          ∙ ap (λ z. z - o)
              (length-run dev mem k fs.disk (first_sector fs c) fs.bpb.sectors_per_cluster
                ∙ sym sectors) in
        let all : take (size - o) part ≡ take n part =
          take_all (size - o) part (omega (arith, full))
          ∙ sym (take_all n part (omega (arith, full, more))) in
        rw (not_done, r.same, to_read)
          (round_on dev mem k fuel fs handle size p c n (entry dev k fs c % 2 ^ 28) cs done
            (take (size - o) part) (k.sector fs.disk (fs.fat_start + c / 128)) r.same sectors
            r.some_bytes more small all
            (λ heap.
              get_next_cluster_lem dev k (record fs { heap = heap })
                (HasTable-heap dev mem k fs heap r.table) c r.on)
            (rest more) (iteration-Reads fs size c o (size - o) r (omega (arith, inside))))

    behind_lem :
        (fs : Fat32 D M) (size p c n : ℕ) (cs : List ℕ)
        → Round fs size c
        → p % size + n ≤ length (contents dev mem k fs (c ∷ cs))
        → size - p % size < n
        → (p + (size - p % size)) % size + (n - (size - p % size))
          ≤ length (contents dev mem k fs cs)
    behind_lem fs size p c n cs r within more = omega (
      arith,
      next_start p size r.some_bytes,
      mod-lt p r.some_bytes,
      within,
      more,
      sectors_lem fs size c r,
      length-append (cluster_bytes dev mem k fs c) (contents dev mem k fs cs),
      length-run dev mem k fs.disk (first_sector fs c) fs.bpb.sectors_per_cluster,
    )

    pub loop_lem :
        (fuel : ℕ) (fs : Fat32 D M) (handle : FileHandle) (size p c n d : ℕ) (ds : List ℕ)
        (done : Bytes)
        → cluster_size fs ≡ size
        → 0 < size
        → HasTable dev k fs
        → ChainOf dev k fs c (d ∷ ds)
        → AllOnDisk dev mem k fs (d ∷ ds)
        → p % size + n ≤ length (contents dev mem k fs (d ∷ ds))
        → p + n < 2 ^ 32
        → length (d ∷ ds) < fuel
        → 0 < n
        → Loop dev mem k fuel fs handle size p c done n (d ∷ ds)
    loop_lem zero fs handle size p c n d ds done same some_bytes t chain there within small enough
          some_left =
        absurd (omega (arith, enough))
    loop_lem (suc fuel) fs handle size p c n d [] done same some_bytes t (step used on rest) there
          within small enough some_left =
        let r : Round fs size c = record {
          same = same;
          some_bytes = some_bytes;
          table = t;
          on = on;
          used = below_end c used;
          there = there.0;
        } in
        iteration_lem fuel fs handle size p c n [] done r some_left (omega (arith, enough)) small
          (λ more heap before.
            absurd (omega (arith, more, behind_lem fs size p c n [] r within more)))
          (ltb (size - p % size) n) refl
    loop_lem (suc fuel) fs handle size p c n d (e ∷ es) done same some_bytes t (step used on rest)
          there within small enough some_left =
        let r : Round fs size c = record {
          same = same;
          some_bytes = some_bytes;
          table = t;
          on = on;
          used = below_end c used;
          there = there.0;
        } in
        let buf = k.sector fs.disk (fs.fat_start + c / 128) in
        iteration_lem fuel fs handle size p c n (e ∷ es) done r some_left (omega (arith, enough))
          small
          (λ more heap before.
            loop_lem fuel (record fs { heap = heap; sector_buf = buf }) handle size
              (p + (size - p % size)) (entry dev k fs c % 2 ^ 28) (n - (size - p % size)) e es
              before same some_bytes
              (HasTable-buffer dev k (record fs { heap = heap }) buf
                (k.full_sector fs.disk (fs.fat_start + c / 128))
                (HasTable-heap dev mem k fs heap t))
              rest there.1 (behind_lem fs size p c n (e ∷ es) r within more)
              (omega (arith, more, small)) (omega (arith, enough)) (omega (arith, more)))
          (ltb (size - p % size) n) refl
