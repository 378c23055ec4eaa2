-- ===== src/Filesystem/Fat/Table/Links.antt =====
-- Reading and linking: the table as a function from clusters to entries.
use pingu_os.Common.{
  ℕ, ◌+◌, ◌*◌, ◌-◌, ◌/◌, ◌%◌, ◌^◌, ◌≤◌, ◌<◌, ◌≡◌, ◌≢◌, refl, ◌∙◌, sym, ap, ap₂, arith, length, ◌++◌,
  replicate, append-nil, if◌then◌else◌, ◌==◌, ==-refl, Bool, true, false, subst, add32,
}
use native.Mathlib.Decide.{ℕ_discrete}
use pingu_os.Common.Bytes.{
  Bytes, fill, get_u32, set_u32, fill_all, length-set_u32, get_u32-set_u32, get_u32-set_u32_ne,
  take_all,
}
use pingu_os.Drivers.Disk.{Disk, IsDisk, sector_size}
use pingu_os.Filesystem.Fat.{Fat32}
use pingu_os.Filesystem.Fat.Table.{
  table_sector, table_byte, read_table, write_table, get_next_cluster, store_entry,
  link_next_cluster,
}

if-mod :
    (b : Bool) (x y : ℕ) → (if b then x else y) % 2 ^ 28 ≡ (if b then x % 2 ^ 28 else y % 2 ^ 28)
if-mod true x y = refl
if-mod false x y = refl

module _ {D M : Type 0} (dev : Disk D) {count : ℕ} (k : IsDisk dev count) where
  -- Sectors of 512 bytes, and a table that lies on the disk, with a sector behind it.
  pub record HasTable (fs : Fat32 D M) : Type 0 where
    pub bytes : fs.bpb.bytes_per_sector ≡ sector_size
    pub table : fs.fat_start + fs.bpb.table_size < count
    pub small : fs.bpb.table_size < 2 ^ 25
    pub addressable : count ≤ 2 ^ 28
    pub buffer : length fs.sector_buf ≡ sector_size

  -- The table's entry of a cluster.
  abbrev pub entry : Fat32 D M → ℕ → ℕ
  entry fs c = get_u32 (k.sector fs.disk (fs.fat_start + c / 128)) (4 * (c % 128))

  -- The sector in which the entry of `c` stands is on the disk; so it is for every cluster of the
  -- table, and for the 128 behind them.
  abbrev pub InTable : Fat32 D M → ℕ → Type 0
  InTable fs c = fs.fat_start + c / 128 < count

  module _ (fs : Fat32 D M) (t : HasTable fs) where
    pub table_byte_lem : (c : ℕ) → table_byte fs c ≡ 4 * (c % 128)
    table_byte_lem c = ap (λ b. 4 * (c % (b / 4))) t.bytes

    table_sector_lem : (c : ℕ) → InTable fs c → table_sector fs c ≡ fs.fat_start + c / 128
    table_sector_lem c h =
        ap (λ b. add32 fs.fat_start (c / (b / 4))) t.bytes ∙ omega (arith, t.table, t.addressable)

    pub read_table_lem :
        (c : ℕ) (buf : Bytes)
        → InTable fs c
        → length buf ≡ sector_size
        → read_table dev fs c buf ≡ k.sector fs.disk (fs.fat_start + c / 128)
    unfolding read_table
    read_table_lem c buf h full =
        let asked = ap₂ (dev.read_28 fs.disk) (table_sector_lem c h) t.bytes in
        let got =
          k.reads fs.disk (fs.fat_start + c / 128) sector_size (omega (arith, t.table))
            (omega arith) in
        let whole =
          take_all sector_size (k.sector fs.disk (fs.fat_start + c / 128))
            (omega (arith, k.full_sector fs.disk (fs.fat_start + c / 128))) in
        let bytes : (dev.read_28 fs.disk (table_sector fs c) fs.bpb.bytes_per_sector).1
            ≡ k.sector fs.disk (fs.fat_start + c / 128) =
          ap (λ r. r.1) (asked ∙ got) ∙ whole in
        ap (fill buf) bytes
        ∙ fill_all buf (k.sector fs.disk (fs.fat_start + c / 128))
            (omega (arith, full, k.full_sector fs.disk (fs.fat_start + c / 128)))

    -- `get_next_cluster` gives the low 28 bits of the entry, and changes nothing but the buffer.
    pub get_next_cluster_lem :
        (c : ℕ)
        → InTable fs c
        → get_next_cluster dev fs c ≡ (
          entry fs c % 2 ^ 28,
          record fs { sector_buf = k.sector fs.disk (fs.fat_start + c / 128) },
        )
    unfolding get_next_cluster
    get_next_cluster_lem c h =
        let read = read_table_lem c fs.sector_buf h t.buffer in
        ap₂ (λ b i. (get_u32 b i % 2 ^ 28, record fs { sector_buf = b })) read (table_byte_lem c)

    pub write_table_lem :
        (c : ℕ) (buf : Bytes)
        → InTable fs c
        → length buf ≡ sector_size
        → (k.sector (write_table dev fs c buf) (fs.fat_start + c / 128) ≡ buf)
          × ((s : ℕ)
              → fs.fat_start + c / 128 ≢ s
              → k.sector (write_table dev fs c buf) s ≡ k.sector fs.disk s)
    unfolding write_table
    write_table_lem c buf h full =
        let at : fs.fat_start + c / 128 < count = omega (arith, t.table) in
        let here = k.writes fs.disk (fs.fat_start + c / 128) buf at (omega (arith, full)) in
        let rest : sector_size - length buf ≡ 0 = omega (arith, full) in
        let pad = ap (λ n. buf ++ replicate n 0) rest ∙ append-nil buf in
        let same = ap (λ s. (dev.write_28 fs.disk s buf).1) (table_sector_lem c h) in
        (
          ap (λ d. k.sector d (fs.fat_start + c / 128)) same ∙ here ∙ pad,
          λ s ne.
              ap (λ d. k.sector d s) same
              ∙ k.keeps fs.disk (fs.fat_start + c / 128) s buf at (omega (arith, full)) ne,
        )

    -- A disk on which the table sector of `c` is the old one with the entry of `c` replaced.
    pub entry-write_table :
        (c c' v : ℕ)
        → InTable fs c
        → v < 2 ^ 32
        → let buf = set_u32 (k.sector fs.disk (fs.fat_start + c / 128)) (4 * (c % 128)) v in
          entry (record fs { disk = write_table dev fs c buf }) c'
          ≡ (if c == c' then v else entry fs c')
    entry-write_table c c' v h word =
        let old = k.sector fs.disk (fs.fat_start + c / 128) in
        let buf = set_u32 old (4 * (c % 128)) v in
        let full =
          length-set_u32 old (4 * (c % 128)) v ∙ k.full_sector fs.disk (fs.fat_start + c / 128) in
        let w = write_table_lem c buf h full in
        let d = write_table dev fs c buf in
        let j = 4 * (c' % 128) in
        elim (ℕ_discrete c c') [
          | yes same ↦
              subst
                (λ x.
                  entry (record fs { disk = write_table dev fs c buf }) x
                  ≡ (if c == x then v else entry fs x))
                same
                (rw (==-refl c) (
                  ap (λ b. get_u32 b (4 * (c % 128))) w.0
                  ∙ get_u32-set_u32 old (4 * (c % 128)) v
                      (omega (arith, k.full_sector fs.disk (fs.fat_start + c / 128))) word))
          | no other ↦
              let differ : (c == c') ≡ false = ground arith in
              rw differ (elim (ℕ_discrete (c / 128) (c' / 128)) [
                | yes near ↦
                    ap (λ q. get_u32 (k.sector d (fs.fat_start + q)) j) (sym near)
                    ∙ ap (λ b. get_u32 b j) w.0
                    ∙ get_u32-set_u32_ne old (c % 128) (c' % 128) v (omega arith)
                    ∙ ap (λ q. get_u32 (k.sector fs.disk (fs.fat_start + q)) j) near
                | no far ↦ ap (λ b. get_u32 b j) (w.1 (fs.fat_start + c' / 128) (omega arith))
              ])
        ]

    -- `store_entry` replaces one entry of the table, and no sector but that of the entry changes.
    pub store_entry_lem :
        (c v : ℕ)
        → InTable fs c
        → v < 2 ^ 32
        → let g = store_entry dev fs c v in
          ((c' : ℕ) → entry g c' ≡ (if c == c' then v else entry fs c'))
          × ((s : ℕ) → fs.fat_start + c / 128 ≢ s → k.sector g.disk s ≡ k.sector fs.disk s)
          × HasTable g
    unfolding store_entry
    store_entry_lem c v h word =
        let old = k.sector fs.disk (fs.fat_start + c / 128) in
        let full =
          length-set_u32 old (4 * (c % 128)) v ∙ k.full_sector fs.disk (fs.fat_start + c / 128) in
        let read = read_table_lem c fs.sector_buf h t.buffer in
        let stored : set_u32 (read_table dev fs c fs.sector_buf) (table_byte fs c) v
            ≡ set_u32 old (4 * (c % 128)) v =
          ap₂ (λ b i. set_u32 b i v) read (table_byte_lem c) in
        rw stored (
          λ c'. entry-write_table c c' v h word,
          (write_table_lem c (set_u32 old (4 * (c % 128)) v) h full).1,
          record {
            bytes = t.bytes;
            table = t.table;
            small = t.small;
            addressable = t.addressable;
            buffer = full;
          },
        )

  pub next_of_store :
      (fs : Fat32 D M) (t : HasTable fs) (c v c' : ℕ)
      → InTable fs c
      → InTable fs c'
      → v < 2 ^ 32
      → (get_next_cluster dev (store_entry dev fs c v) c').0
        ≡ (if c == c' then v % 2 ^ 28 else (get_next_cluster dev fs c').0)
  unfolding store_entry
  next_of_store fs t c v c' h h' word =
      let s = store_entry_lem fs t c v h word in
      ap (λ r. r.0) (get_next_cluster_lem (store_entry dev fs c v) s.2 c' h')
      ∙ ap (λ x. x % 2 ^ 28) (s.0 c')
      ∙ if-mod (c == c') v (entry fs c')
      ∙ ap (λ x. if c == c' then v % 2 ^ 28 else x)
          (sym (ap (λ r. r.0) (get_next_cluster_lem fs t c' h')))

  -- After `link_next_cluster c next` the entry of `c` leads to `next`, where `next` has at most 28
  -- bits, every other cluster of the table leads where it did, and no sector but the one of the
  -- entry has changed.
  pub get_next_cluster-link :
      (fs : Fat32 D M) (c next : ℕ)
      → HasTable fs
      → InTable fs c
      → next < 2 ^ 28
      → let g = link_next_cluster dev fs c next in
        ((get_next_cluster dev g c).0 ≡ next)
        × ((c' : ℕ)
            → InTable fs c'
            → c ≢ c'
            → (get_next_cluster dev g c').0 ≡ (get_next_cluster dev fs c').0)
        × ((s : ℕ) → fs.fat_start + c / 128 ≢ s → k.sector g.disk s ≡ k.sector fs.disk s)
  unfolding link_next_cluster
  get_next_cluster-link fs c next t h word = (
    next_of_store fs t c next c h h (omega arith) ∙ rw (==-refl c) (omega arith),
    λ c' h' ne.
        let differ : (c == c') ≡ false = ground arith in
        next_of_store fs t c next c' h h' (omega arith) ∙ rw differ,
    (store_entry_lem fs t c next h (omega arith)).1,
  )
