-- ===== src/Filesystem/Fat/Files/Overwriting.antt =====
-- A file is written over, and read back.
use native.Mathlib.Nat.{zero-mod, mul-suc, mul-zero}
use pingu_os.Common.{
  ℕ, zero, suc, ◌+◌, ◌*◌, ◌-◌, ◌%◌, ◌^◌, ◌≤◌, ◌<◌, ◌≡◌, refl, ◌∙◌, sym, ap, ap₂, arith, true, false,
  Option, some, List, [], ◌∷◌, ◌==◌, length, take, drop, length-drop, length-append,
}
use pingu_os.Common.Bytes.{Bytes}
use pingu_os.Allocator.{Allocator, IsAllocator}
use pingu_os.Drivers.Disk.{Disk, IsDisk, sector_size}
use pingu_os.Filesystem.{FsError, success, FileHandle}
use pingu_os.Filesystem.Fat.{Fat32}
use pingu_os.Filesystem.Fat.Table.Links.{HasTable, InTable, entry}
use pingu_os.Filesystem.Fat.Table.Allocate.{HasTable-heap}
use pingu_os.Filesystem.Fat.Clusters.{cluster_size, first_sector, lesser}
use pingu_os.Filesystem.Fat.Clusters.Runs.{length-run}
use pingu_os.Filesystem.Fat.Clusters.Slices.{cluster_bytes}
use pingu_os.Filesystem.Fat.Clusters.Storing.{write_cluster-Stored}
use pingu_os.Filesystem.Fat.Files.{fill_chain, read}
use pingu_os.Filesystem.Fat.Files.Chains.{
  ChainOf, step, Absent, Distinct, HasTable-buffer, EnoughMemory,
}
use pingu_os.Filesystem.Fat.Files.Contents.{
  contents, AllOnDisk, HasFile, HasRead, HasRead-within, last_cluster,
}
use pingu_os.Filesystem.Fat.Files.Access.{amount, read-contents}
use pingu_os.Filesystem.Fat.Files.Filling.{
  Chain-agree, Filled, filled, HasTable-disk, entry-agree, fill_round,
}
use pingu_os.Filesystem.Fat.Files.Area.{HasData, HasData-within, InData, AllInData, InData-room}

lesser_lem : (room n : ℕ) → (lesser room n ≤ room) × (lesser room n ≤ n)
lesser_lem room n = (ground arith, ground arith)

rest_fits : (room n more : ℕ) → n ≤ room * suc more → n - lesser room n ≤ room * more
rest_fits room n more within =
    let split : n ≤ room * more + room = omega (arith, within, mul-suc room more) in
    ground (arith, split)

module _ {D M : Type 0} (dev : Disk D) (mem : Allocator M) {count : ℕ} (k : IsDisk dev count) where
  fill_done :
      (fuel : ℕ) (fs : Fat32 D M) (handle : FileHandle) (top c : ℕ) (cs : List ℕ) (buffer : Bytes)
      → HasTable dev k fs
      → Filled dev mem k fs handle top cs 0 buffer
          (fill_chain dev mem (suc fuel) fs handle c buffer 0)
  unfolding fill_chain
  fill_done fuel fs handle top c cs buffer t =
      filled (omega arith) t.buffer refl (λ t low. refl) (λ e i absent. refl)

  -- The last loop of `write`, which fills the chain of a file from its first cluster on. The volume's
  -- clusters lie behind the table and end on the disk; those of the chain are among them, no one
  -- twice, and have room for the bytes; the loop may run more often than the chain has clusters.
  -- Then it succeeds: the clusters of the chain hold the bytes of the buffer, one behind the other,
  -- the size of the handle has grown by as many, and the sectors in front of the clusters, with the
  -- table, and all clusters that are not in the chain are as they were.
  pub fill_chain-Filled :
      (fuel : ℕ) (fs : Fat32 D M) (handle : FileHandle) (top c n : ℕ) (cs : List ℕ) (buffer : Bytes)
      → HasData fs count top
      → HasTable dev k fs
      → ChainOf dev k fs c cs
      → AllInData top cs
      → Distinct cs
      → n ≤ length buffer
      → n ≤ 512 * fs.bpb.sectors_per_cluster * length cs
      → handle.size + n < 2 ^ 32
      → length cs < fuel
      → Filled dev mem k fs handle top cs n buffer (fill_chain dev mem fuel fs handle c buffer n)
  unfolding fill_chain
  fill_chain-Filled zero fs handle top c n cs buffer area t chain inside distinct there fits small
        enough =
      absurd (omega (arith, enough))
  fill_chain-Filled (suc fuel) fs handle top c zero cs buffer area t chain inside distinct there
        fits small enough =
      fill_done fuel fs handle top c cs buffer t
  fill_chain-Filled (suc fuel) fs handle top c (suc n) [] buffer area t chain inside distinct there
        fits small enough =
      absurd (omega (arith, fits, mul-zero (512 * fs.bpb.sectors_per_cluster)))
  fill_chain-Filled (suc fuel) fs handle top c (suc n) (d ∷ cs) buffer area t (step used on rest)
        inside distinct there fits small enough =
      let m = fs.bpb.sectors_per_cluster in
      let b = lesser (512 * m) (suc n) in
      let size : cluster_size fs ≡ 512 * m = ap (λ z. m * z) t.bytes ∙ omega arith in
      let least = lesser_lem (512 * m) (suc n) in
      let not_done : (suc n == 0) ≡ false = ground arith in
      rw (not_done, used, size)
        (fill_round dev mem k fuel fs handle top c (suc n) cs buffer area t on inside.0 distinct.0
          small
          (λ disk buf table full.
            let g = record fs { disk = disk; sector_buf = buf } in
            fill_chain-Filled fuel g (record handle { size = handle.size + b }) top
              (entry dev k fs c % 2 ^ 28) (suc n - b) cs (drop b buffer)
              (HasData-within fs count top disk fs.heap buf area)
              (HasTable-buffer dev k (record fs { disk = disk }) buf full
                (HasTable-disk dev mem k fs disk t))
              (Chain-agree (InTable dev k fs) (entry dev k fs) (entry dev k g) top
                (λ e i. entry-agree dev mem k fs top disk e area table i) inside.1 rest)
              inside.1 distinct.1 (omega (arith, there, length-drop b buffer))
              (rest_fits (512 * m) (suc n) (length cs) fits) (omega (arith, small, least.1))
              (omega (arith, enough)))
          (write_cluster-Stored dev mem k fs c b buffer t.bytes
            (InData-room fs count top area c inside.0) area.addressable least.0
            (omega (arith, there, least.1))))

  length-contents :
      (fs : Fat32 D M) (cs : List ℕ)
      → length (contents dev mem k fs cs) ≡ 512 * fs.bpb.sectors_per_cluster * length cs
  length-contents fs [] = sym (mul-zero (512 * fs.bpb.sectors_per_cluster))
  length-contents fs (c ∷ cs) =
      length-append (cluster_bytes dev mem k fs c) (contents dev mem k fs cs)
      ∙ omega (
        arith,
        length-run dev mem k fs.disk (first_sector fs c) fs.bpb.sectors_per_cluster,
        length-contents fs cs,
        mul-suc (512 * fs.bpb.sectors_per_cluster) (length cs),
      )

  AllInData-AllOnDisk :
      (fs : Fat32 D M) (top : ℕ) (cs : List ℕ)
      → HasData fs count top
      → AllInData top cs
      → AllOnDisk dev mem k fs cs
  AllInData-AllOnDisk fs top [] area all = tt
  AllInData-AllOnDisk fs top (c ∷ cs) area all =
      (InData-room fs count top area c all.0, AllInData-AllOnDisk fs top cs area all.1)

  -- The handle at the start of its file, as `write` leaves it.
  abbrev pub rewound : FileHandle → FileHandle
  rewound handle = record handle { cluster = handle.start_cluster; position = 0 }

  -- A write that succeeds, adds `n` to the handle's size and puts it back to the start of its file,
  -- where a read of `n` bytes then gives the bytes. The sectors in front of the clusters are as they
  -- were, with the table, and so are the clusters that are not in the list of changed ones.
  pub data ReadsBack (fuel : ℕ) (fs : Fat32 D M) (handle : FileHandle) (top : ℕ)
      (changed cs : List ℕ) (n : ℕ) (bytes : Bytes)
      : Option (FsError × FileHandle × Fat32 D M) → Type 0 where
    reads_back :
        {size : ℕ} {g : Fat32 D M}
        → size ≡ handle.size + n
        → ((t : ℕ) → t < fs.data_start → k.sector g.disk t ≡ k.sector fs.disk t)
        → ((e : ℕ)
            → InData top e
            → Absent e changed
            → cluster_bytes dev mem k (record fs { disk = g.disk }) e
              ≡ cluster_bytes dev mem k fs e)
        → HasRead dev mem k g
            (rewound (record handle { size = size }))
            n
            (last_cluster (cluster_size g) cs 0 n)
            bytes
            (read dev mem fuel g (rewound (record handle { size = size })) n)
        → ReadsBack fuel fs handle top changed cs n bytes
            (some (success, rewound (record handle { size = size }), g))

  -- A read from the start of a chain, on a disk with the same table.
  pub read_back :
      (fuel : ℕ) (fs : Fat32 D M) (handle : FileHandle) (top n size : ℕ) (cs : List ℕ) (d : D)
      (heap : M) (buf : Bytes)
      → IsAllocator mem
      → EnoughMemory dev k mem
      → HasData fs count top
      → HasTable dev k fs
      → ChainOf dev k fs handle.start_cluster cs
      → AllInData top cs
      → handle.valid ≡ true
      → 0 < n
      → n ≤ 512 * fs.bpb.sectors_per_cluster * length cs
      → n ≤ size
      → size < 2 ^ 32
      → length cs < fuel
      → length buf ≡ sector_size
      → ((t : ℕ) → t < fs.data_start → k.sector d t ≡ k.sector fs.disk t)
      → let g = record fs { disk = d; heap = heap; sector_buf = buf } in
        let h = rewound (record handle { size = size }) in
        HasRead dev mem k g h n
          (last_cluster (cluster_size fs) cs 0 n)
          (take n (contents dev mem k g cs))
          (read dev mem fuel g h n)
  read_back fuel fs handle top n size cs d heap buf al memory area t chain inside valid some_bytes
        fits grown small enough full table =
      let g = record fs { disk = d; heap = heap; sector_buf = buf } in
      let h = rewound (record handle { size = size }) in
      let file : HasFile dev mem k g handle.start_cluster cs = record {
        some_bytes =
            omega (arith, area.some_sectors, ap (λ z. fs.bpb.sectors_per_cluster * z) t.bytes);
        table =
            HasTable-buffer dev k (record fs { disk = d; heap = heap }) buf full
              (HasTable-heap dev mem k (record fs { disk = d }) heap
                (HasTable-disk dev mem k fs d t));
        chain =
            Chain-agree (InTable dev k fs) (entry dev k fs) (entry dev k g) top
              (λ e i. entry-agree dev mem k fs top d e area table i) inside chain;
        disk = AllInData-AllOnDisk fs top cs area inside;
      } in
      let all : amount h 0 n ≡ n = ground (arith, grown) in
      let start : 0 % cluster_size fs ≡ 0 = zero-mod (cluster_size fs) in
      let room : 0 % cluster_size fs + amount h 0 n ≤ length (contents dev mem k g cs) =
        omega (arith, start, all, length-contents g cs, fits) in
      HasRead-within dev mem k g h heap buf 0 handle.start_cluster
        (ap (λ z. 0 + z) all ∙ omega arith) (ap₂ (last_cluster (cluster_size fs) cs) start all)
        (ap₂ (λ x y. take x (drop y (contents dev mem k g cs))) all start)
        (read-contents dev mem k al memory fuel g h n cs file valid
          (omega (arith, grown, some_bytes)) small some_bytes room enough)
