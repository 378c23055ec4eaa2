-- ===== src/Drivers/Ata.antt =====
-- src/drivers/ata.cpp: the commands of an ATA drive by programmed input and output.
pub mod Device
pub mod Control
pub mod Registers
pub mod Reading
pub mod Writing
pub mod Controller
pub mod Serving
mod Examples
use Prim.Native.Nat.{bit_and, bit_or}
use pingu_os.Common.{
  ℕ, zero, suc, ◌+◌, ◌-◌, ◌*◌, ◌/◌, ◌%◌, ◌^◌, Bool, true, false, not, ◌&&◌, ◌||◌, Option, none,
  some, ◌>>=◌, [], ◌∷◌, ◌++◌, ◌==◌, ltb, if◌then◌else◌, length, shr,
}
use pingu_os.Common.Bytes.{Bytes, c_string}
use pingu_os.Port.{Ports}
use pingu_os.Drivers.Disk.{
  DiskErr, success, dne, not_ata, invalid_sector, invalid_size, other, sector_size,
}

-- The members of `ATA`: the ports are numbered from `port_base` on, and `m_bytes_per_sector` is 512.
pub record Ata : Type 0 where
  pub port_base : ℕ
  pub m_master : Bool

abbrev pub data_port : Ata → ℕ
data_port a = a.port_base

abbrev pub err_port : Ata → ℕ
err_port a = a.port_base + 1

abbrev pub sector_count_port : Ata → ℕ
sector_count_port a = a.port_base + 2

abbrev pub lba_lo_port : Ata → ℕ
lba_lo_port a = a.port_base + 3

abbrev pub lba_mid_port : Ata → ℕ
lba_mid_port a = a.port_base + 4

abbrev pub lba_hi_port : Ata → ℕ
lba_hi_port a = a.port_base + 5

abbrev pub drive_head_port : Ata → ℕ
drive_head_port a = a.port_base + 6

abbrev pub command_port : Ata → ℕ
command_port a = a.port_base + 7

abbrev pub control_port : Ata → ℕ
control_port a = if a.port_base == 0x1F0 then 0x3F6 else 0x376

-- What a command returns: the error, the bytes that it stored in the caller's buffer, what it gave
-- to `printf`, and the ports afterwards.
pub record Outcome (P : Type 0) : Type 0 where
  pub err : DiskErr
  pub bytes : Bytes
  pub printed : Bytes
  pub ports : P

abbrev pub drive_dne : Bytes
drive_dne = b'D' ∷ b'r' ∷ b'i' ∷ b'v' ∷ b'e' ∷ b' ' ∷ b'D' ∷ b'N' ∷ b'E' ∷ []

abbrev pub error : Bytes
error = b'E' ∷ b'R' ∷ b'R' ∷ b'O' ∷ b'R' ∷ []

abbrev pub written_to_ata : Bytes
written_to_ata =
    b' ' ∷ b'W' ∷ b'r' ∷ b'i' ∷ b't' ∷ b't' ∷ b'e' ∷ b'n' ∷ b' ' ∷ b't' ∷ b'o' ∷ b' ' ∷ b'A' ∷ b'T'
    ∷ b'A' ∷ b' ' ∷ []

-- `status & mask`, as a condition.
abbrev pub has_bits : ℕ → ℕ → Bool
has_bits status mask = not (bit_and status mask == 0)

module _ {P : Type 0} (io : Ports P) (a : Ata) where
  unfoldable pub select_drive : P → ℕ → P
  select_drive p bits = io.write p (drive_head_port a) bits

  -- The registers of a transfer of one sector, and the command.
  unfoldable pub command_28 : P → ℕ → ℕ → P
  command_28 p sector command =
      let head = bit_or (if a.m_master then 0xE0 else 0xF0) (shr (bit_and sector 0x0F000000) 24) in
      let p₁ = io.write p (drive_head_port a) head in
      let p₂ = io.write p₁ (err_port a) 0 in
      let p₃ = io.write p₂ (sector_count_port a) 0x01 in
      let p₄ = io.write p₃ (lba_lo_port a) (bit_and sector 0xFF) in
      let p₅ = io.write p₄ (lba_mid_port a) (shr (bit_and sector 0xFF00) 8) in
      let p₆ = io.write p₅ (lba_hi_port a) (shr (bit_and sector 0xFF0000) 16) in
      io.write p₆ (command_port a) command

  -- The loops that read the status again, each with a bound on the rounds.
  unfoldable pub wait_busy : ℕ → ℕ × P → Option (ℕ × P)
  wait_busy zero s = none
  wait_busy (suc fuel) (status, p) =
      let rest = wait_busy fuel (io.read p (command_port a)) in
      if has_bits status 0x80 then rest else some (status, p)

  unfoldable pub wait_data : ℕ → ℕ × P → Option (DiskErr × ℕ × P)
  wait_data zero s = none
  wait_data (suc fuel) (status, p) =
      let rest = wait_data fuel (io.read p (command_port a)) in
      if not (has_bits status 0x08)
      then (if has_bits status 0x01 then some (other, status, p) else rest)
      else some (success, status, p)

  -- The loops that transfer the data, a word of two bytes at a time.
  unfoldable pub read_data : ℕ → P → Bytes × P
  read_data zero p = ([], p)
  read_data (suc zero) p =
      let (w_data, p') = io.read p (data_port a) in (bit_and w_data 0x00FF ∷ [], p')
  read_data (suc (suc count)) p =
      let (w_data, p') = io.read p (data_port a) in
      let (bytes, q) = read_data count p' in
      (bit_and w_data 0x00FF ∷ bit_and (shr w_data 8) 0x00FF ∷ bytes, q)

  unfoldable pub skip_words : ℕ → P → P
  skip_words zero p = p
  skip_words (suc words) p = skip_words words (io.read p (data_port a)).1

  unfoldable pub write_data : P → Bytes → P
  write_data p [] = p
  write_data p (lo ∷ []) = io.write p (data_port a) (bit_or lo 0x00)
  write_data p (lo ∷ hi ∷ bytes) =
      write_data (io.write p (data_port a) (bit_or (2 ^ 8 * hi) lo)) bytes

  unfoldable pub pad_words : ℕ → P → P
  pad_words zero p = p
  pad_words (suc words) p = pad_words words (io.write p (data_port a) 0x0000)

  -- The words of the sector behind the `count` bytes, the last one rounded up.
  abbrev pub words_behind : ℕ → ℕ
  words_behind count = (sector_size - (count + count % 2)) / 2

  -- The end of an interrupt, for both controllers.
  unfoldable pub end_of_interrupt : P → P
  end_of_interrupt p = io.write (io.write p 0xA0 0x20) 0x20 0x20

  unfoldable pub receive : ℕ → DiskErr × ℕ × P → Outcome P
  receive count (success, status, p) =
      if has_bits status 0x01
      then record { err = other; bytes = []; printed = error; ports = p }
      else (let (bytes, q) = read_data count p in
          record {
            err = success;
            bytes = bytes;
            printed = [];
            ports = end_of_interrupt (skip_words (words_behind count) q);
          })
  receive count (err, status, p) = record { err = err; bytes = []; printed = error; ports = p }

  unfoldable pub read_sector : ℕ → ℕ → ℕ × P → Option (Outcome P)
  read_sector fuel count (status, p) =
      if status == 0
      then some (record { err = dne; bytes = []; printed = drive_dne; ports = p })
      else (do
        ready ← wait_busy fuel (status, p)
        waited ← wait_data fuel ready
        some (receive count waited))

  unfoldable pub read_28 : ℕ → P → ℕ → ℕ → Option (Outcome P)
  read_28 fuel p sector count =
      if has_bits sector 0xF0000000
      then some (record { err = invalid_sector; bytes = []; printed = []; ports = p })
      else (if ltb sector_size count
          then some (record { err = invalid_size; bytes = []; printed = []; ports = p })
          else read_sector fuel count (io.read (command_28 p sector 0x20) (command_port a)))

  unfoldable pub write_28 : P → ℕ → Bytes → Outcome P
  write_28 p sector bytes =
      if has_bits sector 0xF0000000
      then record { err = invalid_sector; bytes = []; printed = []; ports = p }
      else (if ltb sector_size (length bytes)
          then record { err = invalid_size; bytes = []; printed = []; ports = p }
          else (let p₁ = write_data (command_28 p sector 0x30) bytes in
              let p₂ = pad_words (words_behind (length bytes)) p₁ in
              record {
                err = success;
                bytes = [];
                printed = written_to_ata;
                ports = io.write p₂ (control_port a) 0x00;
              }))
