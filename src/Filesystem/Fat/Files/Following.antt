-- ===== src/Filesystem/Fat/Files/Following.antt =====
-- `follow` of `seek`: the part of a chain, and of its bytes, behind a number of clusters.
use native.Mathlib.Nat.{mul-suc, mul-zero}
use pingu_os.Common.{
  ℕ, zero, suc, Bool, true, not, if◌then◌else◌, ltb, ◌==◌, ◌≤◌, ◌+◌, ◌*◌, ◌-◌, ◌/◌, ◌%◌, ◌^◌, ◌<◌,
  ◌≡◌, refl, ◌∙◌, sym, ap, arith, false, some, List, [], ◌∷◌, ◌++◌, length, drop, get_or, drop-nil,
  drop_add, drop-append_right, length-append,
}
use pingu_os.Common.Bytes.{Bytes}
use pingu_os.Allocator.{Allocator}
use pingu_os.Drivers.Disk.{Disk, IsDisk, sector_size}
use pingu_os.Filesystem.{success, FileHandle}
use pingu_os.Filesystem.Fat.{Fat32, is_end_of_chain}
use pingu_os.Filesystem.Fat.Table.Links.{HasTable, entry, get_next_cluster_lem}
use pingu_os.Filesystem.Fat.Clusters.{first_sector, cluster_size}
use pingu_os.Filesystem.Fat.Clusters.Runs.{length-run}
use pingu_os.Filesystem.Fat.Clusters.Slices.{cluster_bytes}
use pingu_os.Filesystem.Fat.Files.{follow, seek, seek_to}
use pingu_os.Filesystem.Fat.Files.Chains.{ChainOf, step, HasTable-buffer}
use pingu_os.Filesystem.Fat.Files.Contents.{contents, AllOnDisk}

pub get_or-drop : (cs : List ℕ) (i j d : ℕ) → get_or (drop i cs) j d ≡ get_or cs (i + j) d
get_or-drop cs zero j d = let same : 0 + j ≡ j = omega arith in rw same refl
get_or-drop [] (suc i) j d = refl
get_or-drop (c ∷ cs) (suc i) j d =
    let shift : suc i + j ≡ suc (i + j) = omega arith in rw shift (get_or-drop cs i j d)

pub if_not {ℓ} : {A : Type ℓ} (b : Bool) (x y : A) → b ≡ true → (if not b then x else y) ≡ y
if_not true x y h = refl
if_not false x y h = absurd (ground (arith, h))

pub if_false {ℓ} : {A : Type ℓ} (b : Bool) (x y : A) → b ≡ false → (if b then x else y) ≡ y
if_false true x y h = absurd (ground (arith, h))
if_false false x y h = refl

module _ {D M : Type 0} (dev : Disk D) (mem : Allocator M) {count : ℕ} (k : IsDisk dev count) where
  module _ (fs : Fat32 D M) (size : ℕ) (sectors : size ≡ 512 * fs.bpb.sectors_per_cluster) where
    length-cluster_bytes : (c : ℕ) → length (cluster_bytes dev mem k fs c) ≡ size
    length-cluster_bytes c =
        length-run dev mem k fs.disk (first_sector fs c) fs.bpb.sectors_per_cluster ∙ sym sectors

    pub contents-drop :
        (i : ℕ) (cs : List ℕ)
        → drop (size * i) (contents dev mem k fs cs) ≡ contents dev mem k fs (drop i cs)
    contents-drop zero cs = ap (λ n. drop n (contents dev mem k fs cs)) (mul-zero size)
    contents-drop (suc i) [] = drop-nil (size * suc i)
    contents-drop (suc i) (c ∷ cs) =
        let first = cluster_bytes dev mem k fs c in
        let split : size * suc i ≡ size + size * i = mul-suc size i ∙ omega arith in
        let behind : size - length first ≡ 0 = omega (arith, length-cluster_bytes c) in
        ap (λ n. drop n (first ++ contents dev mem k fs cs)) split
        ∙ drop_add size (size * i) (first ++ contents dev mem k fs cs)
        ∙ ap (drop (size * i)) (
            drop-append_right size first (contents dev mem k fs cs)
              (omega (arith, length-cluster_bytes c))
            ∙ ap (λ n. drop n (contents dev mem k fs cs)) behind)
        ∙ contents-drop i cs

    -- A place inside the bytes is inside one of the clusters.
    pub inside_chain :
        (i : ℕ) (cs : List ℕ) → size * i < length (contents dev mem k fs cs) → i < length cs
    inside_chain i [] h = absurd (omega (arith, h))
    inside_chain zero (c ∷ cs) h = omega arith
    inside_chain (suc i) (c ∷ cs) h =
        let rest = inside_chain i cs (
          omega (
            arith,
            h,
            mul-suc size i,
            length-append (cluster_bytes dev mem k fs c) (contents dev mem k fs cs),
            length-cluster_bytes c,
          )) in
        omega (arith, rest)

  pub AllOnDisk-drop :
      (fs : Fat32 D M) (i : ℕ) (cs : List ℕ)
      → AllOnDisk dev mem k fs cs
      → AllOnDisk dev mem k fs (drop i cs)
  AllOnDisk-drop fs zero cs all = all
  AllOnDisk-drop fs (suc i) [] all = all
  AllOnDisk-drop fs (suc i) (c ∷ cs) all = AllOnDisk-drop fs i cs all.1

  goes_on :
      (fs : Fat32 D M) {c e : ℕ} {es : List ℕ}
      → ChainOf dev k fs c (e ∷ es)
      → is_end_of_chain c ≡ false
  goes_on fs (step used on rest) = used

  -- `index` steps along a chain that is longer: the cluster that begins the rest of it, and nothing
  -- is changed but the buffer.
  pub follow_at :
      (index : ℕ) (fs : Fat32 D M) (c : ℕ) (cs : List ℕ)
      → HasTable dev k fs
      → ChainOf dev k fs c cs
      → index < length cs
      → (c' : ℕ) × (buf : Bytes) × (follow dev index fs c
          ≡ (some c', record fs { sector_buf = buf }))
        × (length buf ≡ sector_size)
        × ChainOf dev k fs c' (drop index cs)
  unfolding follow
  follow_at index fs c [] t chain longer = absurd (omega (arith, longer))
  follow_at zero fs c (d ∷ cs) t chain longer = (c, fs.sector_buf, refl, t.buffer, chain)
  follow_at (suc index) fs c (d ∷ []) t chain longer = absurd (omega (arith, longer))
  follow_at (suc index) fs c (d ∷ (e ∷ es)) t (step used on rest) longer =
      let sector = k.sector fs.disk (fs.fat_start + c / 128) in
      let fs1 = record fs { sector_buf = sector } in
      let t1 = HasTable-buffer dev k fs sector (k.full_sector fs.disk (fs.fat_start + c / 128)) t in
      let (c', buf, found, full, chain) =
        follow_at index fs1 (entry dev k fs c % 2 ^ 28) (e ∷ es) t1 rest (omega (arith, longer)) in
      (c', buf, rw (get_next_cluster_lem dev k fs t c on, goes_on fs rest) found, full, chain)

  pub seek_start :
      (fs : Fat32 D M) (handle : FileHandle)
      → handle.valid ≡ true
      → seek dev fs handle 0
        ≡ (success, record handle { cluster = handle.start_cluster; position = 0 }, fs)
  unfolding seek
  seek_start fs handle valid =
      let within : ltb handle.size 0 ≡ false = ground arith in
      if_not handle.valid _ _ valid ∙ if_false (ltb handle.size 0) _ _ within

  pub seek_on :
      (fs : Fat32 D M) (handle : FileHandle) (position c : ℕ) (buf : Bytes)
      → handle.valid ≡ true
      → 0 < position
      → position ≤ handle.size
      → follow dev (position / cluster_size fs) fs handle.cluster
        ≡ (some c, record fs { sector_buf = buf })
      → seek dev fs handle position ≡ (
        success,
        record handle { cluster = c; position = position },
        record fs { sector_buf = buf },
      )
  unfolding seek seek_to
  seek_on fs handle position c buf valid moved inside found =
      let within : ltb handle.size position ≡ false = ground arith in
      let not_start : (position == 0) ≡ false = ground arith in
      if_not handle.valid _ _ valid
      ∙ if_false (ltb handle.size position) _ _ within
      ∙ if_false (position == 0) _ _ not_start
      ∙ rw found refl
