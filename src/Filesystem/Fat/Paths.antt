-- ===== src/Filesystem/Fat/Paths.antt =====
-- The operations of `FAT32` that take a path (src/filesystem/fat.cpp): `stat`, `exists`, `open`,
-- directories, and making and deleting files.
use pingu_os.Common.{
  ℕ, zero, suc, Bool, true, not, Option, none, some, ◌>>=◌, List, [], ◌∷◌, ◌++◌, ◌==◌,
  if◌then◌else◌, get_or,
}
use pingu_os.Common.Bytes.{Bytes}
use pingu_os.Allocator.{Allocator, Buffer}
use pingu_os.Drivers.Disk.{Disk}
use pingu_os.PathUtils.{strcmp, split_path, merge_path, slash}
use pingu_os.Filesystem.{
  FsError, success, not_found, invalid_path, not_a_directory, not_a_file, invalid_filesystem,
  out_of_memory, already_exists, disk_full, is_success, FileEntry, FileHandle, is_directory,
  is_file, attr_directory, attr_archive,
}
use pingu_os.Filesystem.Fat.{Fat32}
use pingu_os.Filesystem.Fat.Table.{allocate_cluster}
use pingu_os.Filesystem.Fat.Directory.{
  Fat32DirectoryIterator, directory_iterator, got, stopped, next, delete_dir_entry,
}
use pingu_os.Filesystem.Fat.Entries.{create_directory_entry}

-- `"/"`
abbrev pub root : Bytes
root = slash ∷ []

-- `sizeof(FAT32DirectoryIterator)` on the 32-bit target
abbrev pub iterator_size : ℕ
iterator_size = 4148

-- What `open` stores in the handle.
abbrev pub handle_for : FileHandle → FileEntry → FileHandle
handle_for handle entry = record handle {
  cluster = entry.first_cluster;
  start_cluster = entry.first_cluster;
  parent_cluster = entry.parent_cluster;
  position = 0;
  size = entry.size;
  valid = true;
}

-- What `print_list_directory` prints of an entry.
unfoldable pub entry_lines : FileEntry → List Bytes
entry_lines entry =
    (b' ' ∷ [])
      ∷ (if is_directory entry
          then b'[' ∷ b'D' ∷ b'I' ∷ b'R' ∷ b']' ∷ b' ' ∷ []
          else b'[' ∷ b'F' ∷ b'I' ∷ b'L' ∷ b'E' ∷ b']' ∷ b' ' ∷ [])
      ∷ entry.name
      ∷ (if is_file entry
          then (b' ' ∷ b'(' ∷ b'0' ∷ b'x' ∷ [])
            ∷ (b' ' ∷ b'b' ∷ b'y' ∷ b't' ∷ b'e' ∷ b's' ∷ b')' ∷ b' ' ∷ [])
            ∷ []
          else [])
    ++ (b'\n' ∷ []) ∷ []

abbrev pub failed_to_open : Bytes
failed_to_open =
    b'F' ∷ b'a' ∷ b'i' ∷ b'l' ∷ b'e' ∷ b'd' ∷ b' ' ∷ b't' ∷ b'o' ∷ b' ' ∷ b'o' ∷ b'p' ∷ b'e' ∷ b'n'
    ∷ b' ' ∷ b'r' ∷ b'o' ∷ b'o' ∷ b't' ∷ b' ' ∷ b'd' ∷ b'i' ∷ b'r' ∷ b'\n' ∷ []

-- `garbage` and `uninit` are what the arrays and the `FileEntry` on the stack hold before they are
-- set, and `fuel` is the bound for each loop.
module _ {D M : Type 0} (dev : Disk D) (garbage : Bytes) (uninit : FileEntry) (fuel : ℕ) where
  -- The first of the entries left that has a name: `none` inside if there is none.
  unfoldable pub lookup : ℕ → Fat32 D M → Fat32DirectoryIterator → Bytes → Option (Option FileEntry)
  lookup zero fs it name = none
  lookup (suc rounds) fs it name = do
    step ← next dev fuel fs it
    elim step [
      | got file it' ↦
          let rest = lookup rounds fs it' name in
          if strcmp file.name name then some (some file) else rest
      | stopped err it' ↦ some none
    ]

  -- The loop of `stat` over the components left. `file` is the caller's, which stays as it is
  -- unless the last component is found.
  unfoldable pub walk : Fat32 D M → FileEntry → ℕ → List Bytes → Option (FsError × FileEntry)
  walk fs file cluster [] = some (not_found, file)
  walk fs file cluster (c ∷ cs) = do
    found ← lookup fuel fs (directory_iterator dev fs garbage cluster) c
    elim found [
      | none ↦ some (not_found, file)
      | some temp_file ↦
          let deeper = walk fs file temp_file.first_cluster cs in
          elim cs [
            | [] ↦ some (success, temp_file)
            | d ∷ ds ↦ if is_directory temp_file then deeper else some (not_a_directory, file)
          ]
    ]

  unfoldable pub stat_in :
      Fat32 D M → Option (List Bytes) → FileEntry → Option (FsError × FileEntry)
  stat_in fs none file = some (invalid_path, file)
  stat_in fs (some components) file = walk fs file fs.bpb.root_cluster components

  unfoldable pub stat : Fat32 D M → Bytes → FileEntry → Option (FsError × FileEntry)
  stat fs path file =
      let rest = stat_in fs (split_path path 16) file in
      if not fs.mounted then some (invalid_filesystem, file) else rest

  unfoldable pub exists : Fat32 D M → Bytes → Option Bool
  exists fs path = stat fs path uninit >>= λ (err, temp). some (is_success err)

  unfoldable pub open_file : Fat32 D M → Bytes → FileHandle → Option (FsError × FileHandle)
  open_file fs path handle =
      let rest =
        (stat fs path uninit >>= λ (err, entry).
        (if not (is_success err)
          then some (err, handle)
          else (if is_directory entry
              then some (not_a_file, handle)
              else some (success, handle_for handle entry)))) in
      if not fs.mounted then some (invalid_filesystem, handle) else rest

  -- The cluster in which a new entry goes: of a directory other than the root, the source takes
  -- the cluster in which the directory's own entry stands.
  unfoldable pub parent_of : Fat32 D M → Bytes → Option (FsError × ℕ)
  parent_of fs path =
      let rest = (stat fs path uninit >>= λ (err, entry). some (err, entry.parent_cluster)) in
      if strcmp path root then some (success, fs.bpb.root_cluster) else rest

  -- The loop that looks for the entry of a file that starts at a cluster, and deletes it.
  unfoldable pub delete_loop :
      ℕ → Fat32 D M → Fat32DirectoryIterator → ℕ → Option (FsError × Fat32 D M)
  delete_loop zero fs it start_cluster = none
  delete_loop (suc rounds) fs it start_cluster = do
    step ← next dev fuel fs it
    elim step [
      | got entry it' ↦
          let rest = delete_loop rounds fs it' start_cluster in
          if entry.first_cluster == start_cluster
          then some (success, (delete_dir_entry dev fs it').0)
          else rest
      | stopped err it' ↦ some (not_found, fs)
    ]

  unfoldable pub delete_file : Fat32 D M → FileHandle → Option (FsError × Fat32 D M)
  delete_file fs handle =
      delete_loop fuel fs (directory_iterator dev fs garbage handle.parent_cluster)
        handle.start_cluster

  -- For the root, and where `stat` fails, the entry is the uninitialised one.
  unfoldable pub delete_directory : Fat32 D M → Bytes → Option (FsError × Fat32 D M)
  delete_directory fs path = do
    (err, entry) ← if strcmp path root then some (success, uninit) else stat fs path uninit
    delete_loop fuel fs (directory_iterator dev fs garbage entry.parent_cluster) entry.first_cluster

  module _ (mem : Allocator M) where
    -- The part of `make_file` and `make_directory` that makes the entry.
    unfoldable pub make_entry : Fat32 D M → Bytes → ℕ → ℕ → Option (FsError × Fat32 D M)
    make_entry fs name attributes parent_cluster =
        let (file_cluster, fs1) = allocate_cluster dev mem fs in
        let new_file_entry : FileEntry = record {
          name = name;
          size = 0;
          attributes = attributes;
          first_cluster = file_cluster;
          parent_cluster = parent_cluster;
        } in
        let created = create_directory_entry dev mem fuel fs1 new_file_entry in
        if file_cluster == 0
        then some (disk_full, fs1)
        else (created >>= λ (err, fs2). some (success, fs2))

    unfoldable pub make_file : Fat32 D M → Bytes → Bytes → Option (FsError × Fat32 D M)
    make_file fs path filename = do
      there ← exists fs (merge_path (get_or garbage 0 0) path filename)
      let made = parent_of fs path >>= λ (err, parent_cluster).
          let rest = make_entry fs filename attr_archive parent_cluster in
          (if is_success err then rest else some (err, fs))
      if there then some (already_exists, fs) else made

    -- An error of `stat` on the path is not looked at.
    unfoldable pub make_directory : Fat32 D M → Bytes → Bytes → Option (FsError × Fat32 D M)
    make_directory fs path dirname = do
      there ← exists fs (merge_path (get_or garbage 0 0) path dirname)
      let made = parent_of fs path >>= λ (err, parent_cluster).
          make_entry fs dirname attr_directory parent_cluster
      if there then some (already_exists, fs) else made

    unfoldable pub iterator_in :
        Fat32 D M → Option Buffer → ℕ → FsError × Option (ℕ × Fat32DirectoryIterator) × Fat32 D M
    iterator_in fs none cluster = (out_of_memory, none, fs)
    iterator_in fs (some block) cluster =
        (success, some (block.addr, directory_iterator dev fs garbage cluster), fs)

    -- The address of the iterator, and the iterator that has been built there.
    unfoldable pub open_directory :
        Fat32 D M → Bytes → Option (FsError × Option (ℕ × Fat32DirectoryIterator) × Fat32 D M)
    open_directory fs path =
        let (block, heap) = mem.malloc fs.heap iterator_size in
        let at = λ (cluster : ℕ). iterator_in (record fs { heap = heap }) block cluster in
        let rest =
          (stat fs path uninit >>= λ (err, entry).
          (if not (is_success err)
            then some (err, none, fs)
            else (if not (is_directory entry)
                then some (not_a_directory, none, fs)
                else some (at entry.first_cluster)))) in
        if not fs.mounted
        then some (invalid_filesystem, none, fs)
        else (if strcmp path root then some (at fs.bpb.root_cluster) else rest)

    -- The iterator's destructor does nothing.
    unfoldable pub close_directory : Fat32 D M → ℕ → Fat32 D M
    close_directory fs iterator = record fs { heap = mem.free fs.heap iterator }

    -- What is printed of the entries left.
    unfoldable pub list_from : ℕ → Fat32 D M → Fat32DirectoryIterator → Option (List Bytes)
    list_from zero fs it = none
    list_from (suc rounds) fs it = do
      step ← next dev fuel fs it
      elim step [
        | got entry it' ↦ list_from rounds fs it' >>= λ more. some (entry_lines entry ++ more)
        | stopped err it' ↦ some []
      ]

    -- The error, and what is printed; the path is not looked at.
    unfoldable pub print_list_directory :
        Fat32 D M → Bytes → Option (FsError × List Bytes × Fat32 D M)
    print_list_directory fs path = do
      (err, opened, fs1) ← open_directory fs root
      elim opened [
        | none ↦ some (err, failed_to_open ∷ [], fs1)
        | some iter ↦
            (list_from fuel fs1 iter.1 >>= λ lines.
            some (success, lines, close_directory fs1 iter.0))
      ]
