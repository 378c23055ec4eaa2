-- ===== src/Filesystem.antt =====
-- The file system interface of include/filesystem/filesystem.h.
pub mod Fat
pub mod Msdospart
use Prim.Native.Nat.{bit_and}
use pingu_os.Common.{ℕ, Bool, true, false, not, ◌==◌}
use pingu_os.Common.Bytes.{Bytes}

pub data FsError : Type 0 where
  success not_found invalid_path not_a_directory not_a_file end_of_directory read_error : FsError
  disk_error invalid_filesystem buffer_too_small out_of_memory already_exists disk_full : FsError
  end_of_chain not_implemented : FsError

abbrev pub attr_hidden : ℕ
attr_hidden = 0x02

abbrev pub attr_directory : ℕ
attr_directory = 0x10

abbrev pub attr_archive : ℕ
attr_archive = 0x20

-- `err == FSError::SUCCESS`
abbrev pub is_success : FsError → Bool
is_success success = true
is_success not_found = false
is_success invalid_path = false
is_success not_a_directory = false
is_success not_a_file = false
is_success end_of_directory = false
is_success read_error = false
is_success disk_error = false
is_success invalid_filesystem = false
is_success buffer_too_small = false
is_success out_of_memory = false
is_success already_exists = false
is_success disk_full = false
is_success end_of_chain = false
is_success not_implemented = false

-- `name` is the C string that the array holds.
pub record FileEntry : Type 0 where
  pub name : Bytes
  pub size : ℕ
  pub attributes : ℕ
  pub first_cluster : ℕ
  pub parent_cluster : ℕ

unfoldable pub is_directory : FileEntry → Bool
is_directory f = not (bit_and f.attributes attr_directory == 0)

unfoldable pub is_file : FileEntry → Bool
is_file f = bit_and f.attributes attr_directory == 0

unfoldable pub is_hidden : FileEntry → Bool
is_hidden f = not (bit_and f.attributes attr_hidden == 0)

pub record FileHandle : Type 0 where
  pub cluster : ℕ
  pub start_cluster : ℕ
  pub parent_cluster : ℕ
  pub position : ℕ
  pub size : ℕ
  pub fs_specific : ℕ
  pub valid : Bool

-- `enum WRITE_MODE`
pub data WriteMode : Type 0 where
  write_mode append_mode insert_mode : WriteMode
