-- ===== src/Filesystem/Fat/Directory/Scanning.antt =====
-- What `next` finds in a cluster, against the list of the cluster's entries.
use pingu_os.Common.{
  ℕ, zero, suc, ◌+◌, ◌-◌, ◌≤◌, ◌<◌, ◌≡◌, refl, ◌∙◌, sym, subst, ap, ap₂, arith, Bool, true,
  Bool-cases, inl, inr, List, [], ◌∷◌, ◌==◌, if◌then◌else◌, get_or,
}
use pingu_os.Common.Bytes.{Bytes}
use pingu_os.Filesystem.Fat.{DirectoryEntryFat32, entry_end, entry_deleted}
use pingu_os.Filesystem.Fat.Directory.{
  Fat32DirectoryIterator, entry_at, is_lfn, Scan, found, ended, through, scan,
}

-- The entries of a buffer from `i` on, `rounds` of them.
abbrev pub entries : ℕ → ℕ → Bytes → List DirectoryEntryFat32
entries zero i buf = []
entries (suc rounds) i buf = entry_at buf i ∷ entries rounds (i + 1) buf

abbrev pub live_step :
    Bool → Bool → DirectoryEntryFat32 → List DirectoryEntryFat32 → List DirectoryEntryFat32
live_step end skip e rest = if end then [] else (if skip then rest else e ∷ rest)

-- `entry_deleted`, or part of a long name.
abbrev pub skipped : DirectoryEntryFat32 → Bool
skipped e = if get_or e.name 0 0 == entry_deleted then true else is_lfn e

-- The files among entries: up to the mark of the end, without the deleted ones and the parts of
-- long names.
abbrev pub live : List DirectoryEntryFat32 → List DirectoryEntryFat32
live [] = []
live (e ∷ es) = live_step (get_or e.name 0 0 == entry_end) (skipped e) e (live es)

-- A scan finds the first of the files and stands behind it, or there is none left.
pub data Scanned (it : Fat32DirectoryIterator) (rounds : ℕ) : Scan → Type 0 where
  at_file :
      {e : DirectoryEntryFat32} {j : ℕ}
      → it.entry_index < j
      → j ≤ it.entry_index + rounds
      → live (entries rounds it.entry_index it.cluster_buffer)
        ≡ e ∷ live (entries (it.entry_index + rounds - j) j it.cluster_buffer)
      → Scanned it rounds (found e (record it { entry_index = j }))
  at_end :
      {j : ℕ}
      → live (entries rounds it.entry_index it.cluster_buffer) ≡ []
      → Scanned it rounds (ended (record it { entry_index = j; finished = true }))
  at_last :
      live (entries rounds it.entry_index it.cluster_buffer) ≡ []
      → Scanned it rounds (through (record it { entry_index = it.entry_index + rounds }))

pass_over :
    (it : Fat32DirectoryIterator) (rounds : ℕ) {s : Scan}
    → live (entries (suc rounds) it.entry_index it.cluster_buffer)
      ≡ live (entries rounds (it.entry_index + 1) it.cluster_buffer)
    → Scanned (record it { entry_index = it.entry_index + 1 }) rounds s
    → Scanned it (suc rounds) s
pass_over it rounds same (at_file {e} {j} after before files) =
    let left : it.entry_index + 1 + rounds - j ≡ it.entry_index + suc rounds - j = omega arith in
    at_file (omega (arith, after)) (omega (arith, before))
      (same ∙ files ∙ ap (λ n. e ∷ live (entries n j it.cluster_buffer)) left)
pass_over it rounds same (at_end files) = at_end (same ∙ files)
pass_over it rounds same (at_last files) =
    let at : it.entry_index + 1 + rounds ≡ it.entry_index + suc rounds = omega arith in
    rw at (at_last (same ∙ files))

-- The loop of `next` on a cluster finds the first file of the entries left and stands behind it, so
-- that the files left are those that followed it; it ends or passes on to the next cluster only if
-- there is no file left in this one.
pub scan-Scanned : (rounds : ℕ) (it : Fat32DirectoryIterator) → Scanned it rounds (scan rounds it)
unfolding scan
scan-Scanned zero it =
    let at : it.entry_index + 0 ≡ it.entry_index = omega arith in
    subst (λ n. Scanned it 0 (through (record it { entry_index = n }))) at (at_last refl)
scan-Scanned (suc rounds) it =
    let e = entry_at it.cluster_buffer it.entry_index in
    let rest = live (entries rounds (it.entry_index + 1) it.cluster_buffer) in
    let further = scan-Scanned rounds (record it { entry_index = it.entry_index + 1 }) in
    elim (Bool-cases (get_or e.name 0 0 == entry_end)) [
      | inl end ↦ rw end (at_end (ap (λ b. live_step b (skipped e) e rest) end))
      | inr more ↦ elim (Bool-cases (get_or e.name 0 0 == entry_deleted)) [
        | inl deleted ↦
            let skip = ap (λ b. if b then true else is_lfn e) deleted in
            rw (more, deleted)
              (pass_over it rounds (ap₂ (λ a b. live_step a b e rest) more skip) further)
        | inr kept ↦
            let plain = ap (λ b. if b then true else is_lfn e) kept in
            elim (Bool-cases (is_lfn e)) [
              | inl lfn ↦
                  rw (more, kept, lfn)
                    (pass_over it rounds (ap₂ (λ a b. live_step a b e rest) more (plain ∙ lfn))
                      further)
              | inr file ↦
                  let left : it.entry_index + suc rounds - (it.entry_index + 1) ≡ rounds =
                    omega arith in
                  rw (more, kept, file)
                    (at_file (omega arith) (omega arith) (
                      ap₂ (λ a b. live_step a b e rest) more (plain ∙ file)
                      ∙ ap (λ n. e ∷ live (entries n (it.entry_index + 1) it.cluster_buffer))
                          (sym left)))
            ]
      ]
    ]
