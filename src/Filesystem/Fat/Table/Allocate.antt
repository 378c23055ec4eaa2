-- ===== src/Filesystem/Fat/Table/Allocate.antt =====
-- `allocate_cluster` takes the first free cluster, and `deallocate_cluster` frees one.
use pingu_os.Common.{
  ℕ, zero, suc, ◌+◌, ◌*◌, ◌-◌, ◌/◌, ◌%◌, ◌^◌, ◌≤◌, ◌<◌, ◌≡◌, refl, ◌∙◌, sym, subst, ap, ap₂, arith,
  length, if◌then◌else◌, ◌==◌, ==_iff, ==-refl, Bool-cases, inl, inr, false, Option, none, some,
}
use native.Mathlib.Decide.{ℕ_discrete}
use pingu_os.Common.Bytes.{set_u32}
use pingu_os.Allocator.{Allocator, IsAllocator, Buffer}
use pingu_os.Drivers.Disk.{Disk, IsDisk, sector_size}
use pingu_os.Filesystem.{FsError, success}
use pingu_os.Filesystem.Fat.{Fat32}
use pingu_os.Filesystem.Fat.Table.{
  table_byte, num_entries, read_table, write_table, allocate_from, allocate_in, allocate_cluster,
  deallocate_in, deallocate_cluster,
}
use pingu_os.Filesystem.Fat.Table.Links.{
  HasTable, entry, InTable, table_byte_lem, read_table_lem, entry-write_table,
}

module _ {D M : Type 0} (dev : Disk D) (mem : Allocator M) {count : ℕ} (k : IsDisk dev count) where
  -- `IS_FREE`: the low 28 bits of the entry are 0.
  abbrev pub IsFree : Fat32 D M → ℕ → Type 0
  IsFree fs c = entry dev k fs c % 2 ^ 28 ≡ 0

  -- No cluster from 2 up to `c` is free.
  abbrev pub NoneBelow : Fat32 D M → ℕ → Type 0
  NoneBelow fs c = (b : ℕ) → 2 ≤ b → b < c → ¬ IsFree fs b

  -- What `allocate_cluster` returns: the first free cluster, marked as the end of a chain, or 0 and
  -- no change on the disk if there is none.
  pub data Allocation (fs : Fat32 D M) : ℕ × Fat32 D M → Type 0 where
    taken :
        {g : Fat32 D M} (c : ℕ)
        → 2 ≤ c
        → c ≤ 128 * fs.bpb.table_size
        → IsFree fs c
        → NoneBelow fs c
        → ((c' : ℕ) → entry dev k g c' ≡ (if c == c' then 0x0FFFFFFF else entry dev k fs c'))
        → Allocation fs (c, g)
    full :
        {g : Fat32 D M}
        → NoneBelow fs (128 * fs.bpb.table_size + 1)
        → g.disk ≡ fs.disk
        → Allocation fs (0, g)

  one_further :
      (fs : Fat32 D M) (c : ℕ)
      → NoneBelow fs c
      → (entry dev k fs c % 2 ^ 28 == 0) ≡ false
      → NoneBelow fs (c + 1)
  one_further fs c before used b low below free = elim (ℕ_discrete b c) [
    | yes here ↦
        let zero_entry = subst (λ x. entry dev k fs x % 2 ^ 28 ≡ 0) here free in ground arith
    | no other ↦ before b low (omega arith) free
  ]

  allocate_from-Allocation :
      (rounds : ℕ) (fs : Fat32 D M) (c : ℕ) (sector : Buffer)
      → HasTable dev k fs
      → 2 ≤ c
      → c + rounds ≡ 128 * fs.bpb.table_size + 1
      → length sector.bytes ≡ sector_size
      → NoneBelow fs c
      → Allocation fs (allocate_from dev mem rounds fs c sector)
  unfolding allocate_from
  allocate_from-Allocation zero fs c sector t low end sized before =
      full (λ b l h. before b l (omega arith)) refl
  allocate_from-Allocation (suc rounds) fs c sector t low end sized before =
      let on : InTable dev k fs c = omega (arith, t.table) in
      let old = k.sector fs.disk (fs.fat_start + c / 128) in
      let read = read_table_lem dev k fs t c sector.bytes on sized in
      rw (read, table_byte_lem dev k fs t c)
        (elim (Bool-cases (entry dev k fs c % 2 ^ 28 == 0)) [
          | inl free ↦ rw free (
              taken c low (omega arith) ((==_iff _ _).0 free) before
                (λ c'. entry-write_table dev k fs t c c' 0x0FFFFFFF on (omega arith)))
          | inr used ↦ rw used (
              allocate_from-Allocation rounds fs (c + 1) (record sector { bytes = old }) t
                (omega arith) (omega arith) (k.full_sector fs.disk (fs.fat_start + c / 128))
                (one_further fs c before used))
        ])

  pub HasTable-heap :
      (fs : Fat32 D M) (h : M) → HasTable dev k fs → HasTable dev k (record fs { heap = h })
  HasTable-heap fs h t = record {
    bytes = t.bytes;
    table = t.table;
    small = t.small;
    addressable = t.addressable;
    buffer = t.buffer;
  }

  Allocation-heap :
      (fs : Fat32 D M) (h : M) {r : ℕ × Fat32 D M}
      → Allocation (record fs { heap = h }) r
      → Allocation fs r
  Allocation-heap fs h (taken c low high free before after) = taken c low high free before after
  Allocation-heap fs h (full before same) = full before same

  past :
      (fs : Fat32 D M) (r : ℕ × Fat32 D M)
      → 0 < fs.bpb.table_size
      → NoneBelow fs (128 * fs.bpb.table_size)
      → IsFree fs (128 * fs.bpb.table_size)
      → Allocation fs r
      → (r.0 ≡ 128 * fs.bpb.table_size) × (entry dev k r.1 r.0 ≡ 0x0FFFFFFF)
  past fs r some_table none_free free (taken c low high is_free before after) =
      elim (ℕ_discrete c (128 * fs.bpb.table_size)) [
        | yes at ↦ (at, after c ∙ rw (==-refl c))
        | no other ↦ absurd (none_free c low (omega arith) is_free)
      ]
  past fs r some_table none_free free (full before same) =
      absurd (before (128 * fs.bpb.table_size) (omega arith) (omega arith) free)

  -- Given memory for its buffer, `allocate_cluster` returns the first free cluster from 2 on, whose
  -- entry is now the end of a chain while every other entry is as before; or 0, with the disk as
  -- before, if none of the clusters 2 to `NUM_ENTRIES` is free.
  pub allocate_cluster-Allocation :
      (fs : Fat32 D M) (b : Buffer)
      → IsAllocator mem
      → HasTable dev k fs
      → 0 < fs.bpb.table_size
      → (mem.malloc fs.heap fs.bpb.bytes_per_sector).0 ≡ some b
      → Allocation fs (allocate_cluster dev mem fs)
  unfolding allocate_cluster allocate_in
  allocate_cluster-Allocation fs b al t some_table got =
      let rounds : num_entries fs - 1 ≡ 128 * fs.bpb.table_size - 1 =
        ap (λ x. (fs.bpb.table_size * (x / 4)) % 2 ^ 32 - 1) t.bytes ∙ omega (arith, t.small) in
      let sized : length b.bytes ≡ sector_size =
        al.sized fs.heap fs.bpb.bytes_per_sector got ∙ t.bytes in
      let fs' = record fs { heap = (mem.malloc fs.heap fs.bpb.bytes_per_sector).1 } in
      Allocation-heap fs fs'.heap (
        subst (λ o. Allocation fs' (allocate_in dev mem fs' o)) (sym got)
          (subst (λ n. Allocation fs' (allocate_from dev mem n fs' 2 b)) (sym rounds)
            (allocate_from-Allocation (128 * fs.bpb.table_size - 1) fs' 2 b
              (HasTable-heap fs fs'.heap t) (omega arith) (omega arith) sized
              (λ c low h. absurd (omega arith)))))

  -- Without memory for its buffer, `allocate_cluster` returns 0 and the disk is as before.
  allocate_cluster-no_memory :
      (fs : Fat32 D M)
      → (mem.malloc fs.heap fs.bpb.bytes_per_sector).0 ≡ none
      → ((allocate_cluster dev mem fs).0 ≡ 0) × ((allocate_cluster dev mem fs).1.disk ≡ fs.disk)
  unfolding allocate_cluster allocate_in
  allocate_cluster-no_memory fs got = rw got (refl, refl)

  -- If none of the clusters that the table has entries for is free, but the word behind the table
  -- has its low 28 bits 0, `allocate_cluster` takes that word for an entry: it returns the number of
  -- entries and overwrites the word, which belongs to the sector behind the table.
  pub allocate_cluster-past_table :
      (fs : Fat32 D M) (b : Buffer)
      → IsAllocator mem
      → HasTable dev k fs
      → 0 < fs.bpb.table_size
      → (mem.malloc fs.heap fs.bpb.bytes_per_sector).0 ≡ some b
      → NoneBelow fs (128 * fs.bpb.table_size)
      → IsFree fs (128 * fs.bpb.table_size)
      → let (c, g) = allocate_cluster dev mem fs in
        (c ≡ 128 * fs.bpb.table_size) × (entry dev k g c ≡ 0x0FFFFFFF)
  allocate_cluster-past_table fs b al t some_table got none_free free =
      past fs (allocate_cluster dev mem fs) some_table none_free free
        (allocate_cluster-Allocation fs b al t some_table got)

  -- What `deallocate_cluster` returns where it succeeds.
  abbrev pub Deallocated : Fat32 D M → ℕ → FsError × Fat32 D M → Type 0
  Deallocated fs c r =
      (r.0 ≡ success) × ((c' : ℕ) → entry dev k r.1 c' ≡ (if c == c' then 0 else entry dev k fs c'))

  deallocate_in_lem :
      (fs : Fat32 D M) (c : ℕ) (b : Buffer)
      → HasTable dev k fs
      → InTable dev k fs c
      → length b.bytes ≡ sector_size
      → Deallocated fs c (deallocate_in dev mem fs c (some b))
  unfolding deallocate_in
  deallocate_in_lem fs c b t on sized =
      let old = k.sector fs.disk (fs.fat_start + c / 128) in
      let stored : set_u32 (read_table dev fs c b.bytes) (table_byte fs c) 0
          ≡ set_u32 old (4 * (c % 128)) 0 =
        ap₂ (λ x i. set_u32 x i 0) (read_table_lem dev k fs t c b.bytes on sized)
          (table_byte_lem dev k fs t c) in
      (
        refl,
        λ c'.
            ap (λ x. entry dev k (record fs { disk = write_table dev fs c x }) c') stored
            ∙ entry-write_table dev k fs t c c' 0 on (omega arith),
      )

  -- After `deallocate_cluster`, given memory for its buffer, the entry of the cluster is 0 and every
  -- other entry is as before.
  pub deallocate_cluster_lem :
      (fs : Fat32 D M) (c : ℕ) (b : Buffer)
      → IsAllocator mem
      → HasTable dev k fs
      → InTable dev k fs c
      → (mem.malloc fs.heap fs.bpb.bytes_per_sector).0 ≡ some b
      → Deallocated fs c (deallocate_cluster dev mem fs c)
  unfolding deallocate_cluster
  deallocate_cluster_lem fs c b al t on got =
      let fs' = record fs { heap = (mem.malloc fs.heap fs.bpb.bytes_per_sector).1 } in
      let sized : length b.bytes ≡ sector_size =
        al.sized fs.heap fs.bpb.bytes_per_sector got ∙ t.bytes in
      subst (λ o. Deallocated fs c (deallocate_in dev mem fs' c o)) (sym got)
        (deallocate_in_lem fs' c b (HasTable-heap fs fs'.heap t) on sized)

  deallocate_in-HasTable :
      (fs : Fat32 D M) (c : ℕ) (o : Option Buffer)
      → HasTable dev k fs
      → HasTable dev k (deallocate_in dev mem fs c o).1
  unfolding deallocate_in
  deallocate_in-HasTable fs c none t = t
  deallocate_in-HasTable fs c (some b) t = record {
    bytes = t.bytes;
    table = t.table;
    small = t.small;
    addressable = t.addressable;
    buffer = t.buffer;
  }

  pub deallocate_cluster-HasTable :
      (fs : Fat32 D M) (c : ℕ)
      → HasTable dev k fs
      → HasTable dev k (deallocate_cluster dev mem fs c).1
  unfolding deallocate_cluster
  deallocate_cluster-HasTable fs c t =
      let (block, heap) = mem.malloc fs.heap fs.bpb.bytes_per_sector in
      deallocate_in-HasTable (record fs { heap = heap }) c block (HasTable-heap fs heap t)

  pub deallocate_in-fat_start :
      (fs : Fat32 D M) (c : ℕ) (o : Option Buffer)
      → (deallocate_in dev mem fs c o).1.fat_start ≡ fs.fat_start
  unfolding deallocate_in
  deallocate_in-fat_start fs c none = refl
  deallocate_in-fat_start fs c (some b) = refl
