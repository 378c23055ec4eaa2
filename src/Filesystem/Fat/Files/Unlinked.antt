-- ===== src/Filesystem/Fat/Files/Unlinked.antt =====
-- A chain that `unlink_cluster` has cut, as the loops of the driver see it: the one of `write` that
-- counts clusters, the one of `read`, and `load_next_cluster` of the directory iterator.
use pingu_os.Common.{
  ℕ, suc, ◌+◌, ◌*◌, ◌-◌, ◌/◌, ◌%◌, ◌^◌, ◌≤◌, ◌<◌, ◌≡◌, refl, ◌∙◌, sym, subst, ap, ap₂, arith, true,
  false, some, ◌>>=◌, [], ◌∷◌, ==-refl, leb, ltb, take, drop, replicate, length-replicate, add32,
  if◌then◌else◌,
}
use pingu_os.Common.Bytes.{Bytes, fill, fill_all, get_u32, take_all}
use pingu_os.Allocator.{Allocator, IsAllocator}
use pingu_os.Drivers.Disk.{Disk, IsDisk, sector_size}
use pingu_os.Filesystem.{success, FileHandle}
use pingu_os.Filesystem.Fat.{Fat32, is_end_of_chain}
use pingu_os.Filesystem.Fat.Table.{store_entry, unlink_cluster}
use pingu_os.Filesystem.Fat.Table.Links.{HasTable, InTable, entry, store_entry_lem}
use pingu_os.Filesystem.Fat.Table.Allocate.{HasTable-heap}
use pingu_os.Filesystem.Fat.Clusters.{cluster_size, first_sector, lesser}
use pingu_os.Filesystem.Fat.Directory.{Fat32DirectoryIterator, load_cluster, load_next_cluster}
use pingu_os.Filesystem.Fat.Files.{count_chain, read}
use pingu_os.Filesystem.Fat.Files.Chains.{ChainOf, stop, step, EnoughMemory, HasTable-buffer}
use pingu_os.Filesystem.Fat.Files.Contents.{
  contents, HasRead, HasRead-within, last_cluster, last_cluster-first, last_cluster-next,
}
use pingu_os.Filesystem.Fat.Files.Rounds.{Loop, next_start}
use pingu_os.Filesystem.Fat.Files.Reading.{Round, below_end, iteration_lem}
use pingu_os.Filesystem.Fat.Write.Steps.{count_lem}

-- What `unlink_cluster` writes.
abbrev pub mark : ℕ
mark = 0x0FFFFF

-- An iterator that goes on, at another cluster.
pub record GoesOn (it it' : Fat32DirectoryIterator) (next : ℕ) : Type 0 where
  pub cluster : it'.current_cluster ≡ next
  pub finished : it'.finished ≡ it.finished
  pub restarted : it'.entry_index ≡ 0

module _ {D M : Type 0} (dev : Disk D) (mem : Allocator M) {count : ℕ} (k : IsDisk dev count) where
  -- A volume in whose table an entry of a cluster is to be cut, on a disk that is so large that the
  -- cluster 0x0FFFFF lies on it too.
  pub record Cut (fs : Fat32 D M) (c : ℕ) : Type 0 where
    pub table : HasTable dev k fs
    pub start : fs.fat_start ≡ add32 fs.partition_offset fs.bpb.reserved_sectors
    pub some_sectors : 0 < fs.bpb.sectors_per_cluster
    pub used : is_end_of_chain c ≡ false
    pub on : InTable dev k fs c
    pub there : first_sector fs c + fs.bpb.sectors_per_cluster ≤ count
    pub mark_on : InTable dev k fs mark
    pub mark_there : first_sector fs mark + fs.bpb.sectors_per_cluster ≤ count

  -- The buffer that `load_next_cluster` reads a sector of the table into.
  abbrev own_table : Fat32 D M → ℕ → Bytes
  own_table g c =
      fill (replicate 512 0)
        (dev.read_28 g.disk
          (add32 (add32 g.partition_offset g.bpb.reserved_sectors)
            (c / (g.bpb.bytes_per_sector / 4)))
          g.bpb.bytes_per_sector).1

  own_table_lem :
      (g : Fat32 D M) (c : ℕ)
      → HasTable dev k g
      → g.fat_start ≡ add32 g.partition_offset g.bpb.reserved_sectors
      → InTable dev k g c
      → own_table g c ≡ k.sector g.disk (g.fat_start + c / 128)
  own_table_lem g c t start on =
      let sector = k.sector g.disk (g.fat_start + c / 128) in
      let full = k.full_sector g.disk (g.fat_start + c / 128) in
      let at : add32 (add32 g.partition_offset g.bpb.reserved_sectors)
            (c / (g.bpb.bytes_per_sector / 4))
          ≡ g.fat_start + c / 128 =
        ap₂ (λ f b. add32 f (c / (b / 4))) (sym start) t.bytes ∙ omega (arith, on, t.addressable) in
      let got : (dev.read_28 g.disk (g.fat_start + c / 128) sector_size).1 ≡ sector =
        ap (λ r. r.1) (k.reads g.disk (g.fat_start + c / 128) sector_size on (omega arith))
        ∙ take_all sector_size sector (omega (arith, full)) in
      ap (fill (replicate 512 0)) (ap₂ (λ a n. (dev.read_28 g.disk a n).1) at t.bytes ∙ got)
      ∙ fill_all (replicate 512 0) sector (omega (arith, full, length-replicate {A = ℕ} 512 0))

  load_next_cluster_lem :
      (g : Fat32 D M) (it : Fat32DirectoryIterator) (n : ℕ)
      → HasTable dev k g
      → g.fat_start ≡ add32 g.partition_offset g.bpb.reserved_sectors
      → InTable dev k g it.current_cluster
      → entry dev k g it.current_cluster % 2 ^ 28 ≡ n
      → n < 0x0FFFFFF8
      → let (err, it') = load_next_cluster dev g it in (err ≡ success) × GoesOn it it' n
  unfolding load_next_cluster load_cluster
  load_next_cluster_lem g it n t start on leads below =
      let next : get_u32 (own_table g it.current_cluster)
              (4 * (it.current_cluster % (g.bpb.bytes_per_sector / 4)))
            % 2 ^ 28
          ≡ n =
        ap₂ (λ b i. get_u32 b i % 2 ^ 28) (own_table_lem g it.current_cluster t start on)
          (ap (λ b. 4 * (it.current_cluster % (b / 4))) t.bytes)
        ∙ leads in
      let more : leb 0x0FFFFFF8 n ≡ false = ground (arith, below) in
      rw (next, more) (refl, record { cluster = refl; finished = refl; restarted = refl })

  module _ (al : IsAllocator mem) (memory : EnoughMemory dev k mem) where
    -- The loop of `read` goes from a cluster to 0x0FFFFF where the entry says so.
    past_mark :
        (fuel : ℕ) (g : Fat32 D M) (handle : FileHandle) (size p c n : ℕ) (done : Bytes)
        → Round dev mem k g size c
        → Round dev mem k g size mark
        → entry dev k g c % 2 ^ 28 ≡ mark
        → p % size ≡ 0
        → size < n
        → n ≤ size + size
        → p + n < 2 ^ 32
        → Loop dev mem k (suc (suc (suc fuel))) g handle size p c done n (c ∷ mark ∷ [])
    past_mark fuel g handle size p c n done r r' leads start more most small =
        iteration_lem dev mem k al memory (suc (suc fuel)) g handle size p c n (mark ∷ []) done r
          (omega (arith, more)) (omega arith) small
          (λ here heap before.
            let buf = k.sector g.disk (g.fat_start + c / 128) in
            let g' = record g { heap = heap; sector_buf = buf } in
            let p' = p + (size - p % size) in
            let n' = n - (size - p % size) in
            let r'' : Round dev mem k g' size mark = record {
              same = r'.same;
              some_bytes = r'.some_bytes;
              table =
                  HasTable-buffer dev k (record g { heap = heap }) buf
                    (k.full_sector g.disk (g.fat_start + c / 128))
                    (HasTable-heap dev mem k g heap r'.table);
              on = r'.on;
              used = r'.used;
              there = r'.there;
            } in
            subst (λ x. Loop dev mem k (suc (suc fuel)) g' handle size p' x before n' (mark ∷ []))
              (sym leads)
              (iteration_lem dev mem k al memory (suc fuel) g' handle size p' mark n' [] before r''
                (omega (arith, here)) (omega arith) (omega (arith, here, small))
                (λ more'.
                  absurd (omega (arith, more', most, start, next_start p size r.some_bytes)))
                (ltb (size - p' % size) n') refl))
          (ltb (size - p % size) n) refl

    read_past :
        (fuel : ℕ) (g : Fat32 D M) (handle : FileHandle) (want : ℕ)
        → Round dev mem k g (cluster_size g) handle.cluster
        → Round dev mem k g (cluster_size g) mark
        → entry dev k g handle.cluster % 2 ^ 28 ≡ mark
        → handle.valid ≡ true
        → handle.position % cluster_size g ≡ 0
        → cluster_size g < want
        → want ≤ cluster_size g + cluster_size g
        → handle.position + want ≤ handle.size
        → handle.size < 2 ^ 32
        → HasRead dev mem k g handle
            (handle.position + want)
            mark
            (take want (contents dev mem k g (handle.cluster ∷ mark ∷ [])))
            (read dev mem (suc (suc (suc fuel))) g handle want)
    unfolding read
    read_past fuel g handle want r r' leads valid start more most within small =
        let size = cluster_size g in
        let c = handle.cluster in
        let p = handle.position in
        let not_end : leb handle.size handle.position ≡ false = ground (arith, within, more) in
        let all : lesser (handle.size - handle.position) want ≡ want = ground (arith, within) in
        let last : last_cluster size (c ∷ mark ∷ []) (p % size) want ≡ mark =
          ap (λ o. last_cluster size (c ∷ mark ∷ []) o want) start
          ∙ last_cluster-next size c (mark ∷ []) 0 want r.some_bytes (omega (arith, more))
          ∙ last_cluster-first size mark [] 0 (want - (size - 0)) r.some_bytes
              (omega (arith, most)) in
        let bytes = contents dev mem k g (c ∷ mark ∷ []) in
        simp (valid, not_end, all)
          (HasRead-within dev mem k g handle g.heap g.sector_buf p c refl last
            (ap (λ o. take want (drop o bytes)) start)
            (past_mark fuel g handle size p c want [] r r' leads start more most
              (omega (arith, within, small))))

    -- `unlink_cluster` is called on the handle's cluster `c`, which is no end of a chain. To the loop
    -- of `write` that counts clusters the chain then ends with `c`: it counts one. But a `read` of
    -- more bytes than a cluster has and at most twice as many does not stop there, where the handle is
    -- open and at the start of `c`, and its file has those bytes from there on, by its size, which is
    -- less than 2 ^ 32: it succeeds and gives the bytes of `c` and, behind them, those of a
    -- cluster 0x0FFFFF, in which it leaves the handle. And `load_next_cluster` of an iterator that
    -- stands at `c` succeeds and goes on to a cluster 0x0FFFFF. The disk is so large that both clusters and their entries lie on it, the
    -- table begins behind the reserved sectors, there is memory for a sector throughout, and the
    -- loops may run three times.
    pub read-unlink_cluster :
        (fuel : ℕ) (fs : Fat32 D M) (handle : FileHandle) (it : Fat32DirectoryIterator)
        (current want needed : ℕ)
        → Cut fs handle.cluster
        → it.current_cluster ≡ handle.cluster
        → handle.valid ≡ true
        → handle.position % cluster_size fs ≡ 0
        → cluster_size fs < want
        → want ≤ cluster_size fs + cluster_size fs
        → handle.position + want ≤ handle.size
        → handle.size < 2 ^ 32
        → 3 ≤ fuel
        → let g = unlink_cluster dev fs handle.cluster current in
          let (err, it') = load_next_cluster dev g it in
          ((count_chain dev fuel g needed handle.cluster 0 0 0 >>= λ r. some r.0) ≡ some 1)
          × HasRead dev mem k g handle
              (handle.position + want)
              mark
              (take want (contents dev mem k g (handle.cluster ∷ mark ∷ [])))
              (read dev mem fuel g handle want)
          × (err ≡ success)
          × GoesOn it it' mark
    unfolding unlink_cluster store_entry is_end_of_chain
    read-unlink_cluster fuel fs handle it current want needed cut at valid start more most within
          small enough =
        let c = handle.cluster in
        let g = store_entry dev fs c mark in
        let (entries, others, t) = store_entry_lem dev k fs cut.table c mark cut.on (omega arith) in
        let leads : entry dev k g c % 2 ^ 28 ≡ mark =
          ap (λ v. v % 2 ^ 28)
            (entries c ∙ ap (λ b. if b then mark else entry dev k fs c) (==-refl c)) in
        let (l, v, buf, full, counted) =
          count_lem dev mem k fuel g needed c 0 0 0 (c ∷ []) t
            (step cut.used cut.on (subst (λ d. ChainOf dev k g d []) (sym leads) (stop refl)))
            (omega (arith, enough)) in
        let next =
          load_next_cluster_lem g it mark t cut.start (subst (InTable dev k fs) (sym at) cut.on)
            (ap (λ d. entry dev k g d % 2 ^ 28) at ∙ leads) (omega arith) in
        let some_bytes : 0 < cluster_size fs =
          omega
            (arith, cut.some_sectors, ap (λ z. fs.bpb.sectors_per_cluster * z) cut.table.bytes) in
        let r : Round dev mem k g (cluster_size g) c = record {
          same = refl;
          some_bytes = some_bytes;
          table = t;
          on = cut.on;
          used = below_end c cut.used;
          there = cut.there;
        } in
        let r' : Round dev mem k g (cluster_size g) mark = record {
          same = refl;
          some_bytes = some_bytes;
          table = t;
          on = cut.mark_on;
          used = omega arith;
          there = cut.mark_there;
        } in
        let rounds : suc (suc (suc (fuel - 3))) ≡ fuel = omega (arith, enough) in
        (
          ap (λ o. o >>= λ r. some r.0) counted,
          subst
              (λ f.
                HasRead dev mem k g handle (handle.position + want) mark
                  (take want (contents dev mem k g (c ∷ mark ∷ []))) (read dev mem f g handle want))
              rounds
              (read_past (fuel - 3) g handle want r r' leads valid start more most within small),
          next.0,
          next.1,
        )
