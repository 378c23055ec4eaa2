-- ===== src/Filesystem/Fat/Files/Seek.antt =====
-- `seek` follows a chain, and a closed handle is refused.
use pingu_os.Common.{ℕ, ◌≡◌, refl, some, []}
use pingu_os.Common.Bytes.{Bytes}
use pingu_os.Allocator.{Allocator}
use pingu_os.Drivers.Disk.{Disk}
use pingu_os.Filesystem.{invalid_path, FileHandle, WriteMode}
use pingu_os.Filesystem.Fat.{Fat32}
use pingu_os.Filesystem.Fat.Files.{seek, read, close}
use pingu_os.Filesystem.Fat.Write.{write}

-- A handle that has been closed is refused by `seek`, `read` and `write`: each returns
-- `INVALID_PATH`, moves no bytes, and changes neither the handle nor the volume.
close-refused :
    {D M : Type 0} (dev : Disk D) (mem : Allocator M) (fuel : ℕ) (fs : Fat32 D M)
    (handle : FileHandle) (buffer : Bytes) (n : ℕ) (mode : WriteMode)
    → (seek dev fs (close handle) n ≡ (invalid_path, close handle, fs))
      × (read dev mem fuel fs (close handle) n ≡ some (invalid_path, close handle, [], fs))
      × (write dev mem fuel fs (close handle) buffer n mode ≡ some (invalid_path, close handle, fs))
unfolding seek read write close
close-refused dev mem fuel fs handle buffer n mode = (refl, refl, refl)
