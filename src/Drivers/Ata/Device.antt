-- ===== src/Drivers/Ata/Device.antt =====
-- What src/drivers/ata.cpp relies on: a drive that answers as the ATA standard says.
use pingu_os.Common.{
  ℕ, suc, ◌+◌, ◌*◌, ◌/◌, ◌%◌, ◌^◌, ◌≤◌, ◌<◌, ◌≡◌, true, false, ◌&&◌, [], ◌∷◌, ◌++◌, ◌==◌,
  if◌then◌else◌, length,
}
use pingu_os.Common.Bytes.{Bytes}
use pingu_os.Port.{Ports}
use pingu_os.Drivers.Disk.{sector_size}
use pingu_os.Drivers.Ata.{
  Ata, data_port, err_port, sector_count_port, lba_lo_port, lba_mid_port, lba_hi_port,
  drive_head_port, command_port, control_port, has_bits,
}

-- Nothing to do; bytes of a sector that the host is to read; bytes that the host has sent for a
-- sector of a drive.
pub data Phase : Type 0 where
  idle : Phase
  sending : Bytes → Phase
  taking : ℕ → ℕ → Bytes → Phase

-- The registers, what the selected drive does, for how many reads of the status it will still say
-- that it is busy, and the sectors of both drives.
pub record DriveState : Type 0 where
  pub head : ℕ
  pub count : ℕ
  pub lba_lo : ℕ
  pub lba_mid : ℕ
  pub lba_hi : ℕ
  pub phase : Phase
  pub busy : ℕ
  pub sectors : ℕ → ℕ → Bytes

-- Bit 4 of the head register selects the drive, and its low bits are the high bits of the sector.
abbrev pub drive_of : DriveState → ℕ
drive_of st = st.head / 16 % 2

abbrev pub lba_of : DriveState → ℕ
lba_of st = 2 ^ 24 * (st.head % 16) + 2 ^ 16 * st.lba_hi + 2 ^ 8 * st.lba_mid + st.lba_lo

pub record AtRest (st : DriveState) : Type 0 where
  pub is_idle : st.phase ≡ idle
  pub not_busy : st.busy ≡ 0

-- With its last byte sent, the drive is idle.
abbrev pub left : Bytes → Phase
left [] = idle
left (x ∷ bytes) = sending (x ∷ bytes)

abbrev pub store : (ℕ → ℕ → Bytes) → ℕ → ℕ → Bytes → ℕ → ℕ → Bytes
store sectors drive sector bytes d s = if (d == drive) && (s == sector) then bytes else sectors d s

-- With its last byte taken, the sector is stored.
abbrev pub took : DriveState → ℕ → ℕ → Bytes → DriveState
took st drive sector bytes =
    if length bytes == sector_size
    then record st { phase = idle; sectors = store st.sectors drive sector bytes }
    else record st { phase = taking drive sector bytes }

-- A controller whose drives have `count` sectors and are busy with a command for at most `delay`
-- reads of the status, and which takes the data of a write as soon as it has the command.
pub record IsAta {P : Type 0} (io : Ports P) (a : Ata) (count delay : ℕ) : Type 0 where
  pub view : P → DriveState
  pub full_sector : (p : P) (d s : ℕ) → length ((view p).sectors d s) ≡ sector_size
  pub writes_head :
      (p : P) (v : ℕ)
      → AtRest (view p)
      → view (io.write p (drive_head_port a) v) ≡ record (view p) { head = v }
  pub writes_features :
      (p : P) (v : ℕ) → AtRest (view p) → view (io.write p (err_port a) v) ≡ view p
  pub writes_count :
      (p : P) (v : ℕ)
      → AtRest (view p)
      → view (io.write p (sector_count_port a) v) ≡ record (view p) { count = v }
  pub writes_lo :
      (p : P) (v : ℕ)
      → AtRest (view p)
      → view (io.write p (lba_lo_port a) v) ≡ record (view p) { lba_lo = v }
  pub writes_mid :
      (p : P) (v : ℕ)
      → AtRest (view p)
      → view (io.write p (lba_mid_port a) v) ≡ record (view p) { lba_mid = v }
  pub writes_hi :
      (p : P) (v : ℕ)
      → AtRest (view p)
      → view (io.write p (lba_hi_port a) v) ≡ record (view p) { lba_hi = v }
  -- The commands that read and write sectors, for one sector that the drive has.
  pub reads_sector :
      (p : P)
      → AtRest (view p)
      → (view p).count ≡ 1
      → lba_of (view p) < count
      → (n : ℕ) × (n ≤ delay)
        × (view (io.write p (command_port a) 0x20) ≡ record (view p) {
          phase = sending ((view p).sectors (drive_of (view p)) (lba_of (view p)));
          busy = n;
        })
  pub writes_sector :
      (p : P)
      → AtRest (view p)
      → (view p).count ≡ 1
      → lba_of (view p) < count
      → view (io.write p (command_port a) 0x30)
        ≡ record (view p) { phase = taking (drive_of (view p)) (lba_of (view p)) [] }
  -- The status: busy, or with data for the host and without an error.
  pub says_busy :
      (p : P) (n : ℕ)
      → (view p).busy ≡ suc n
      → (has_bits (io.read p (command_port a)).0 0x80 ≡ true)
        × (view (io.read p (command_port a)).1 ≡ record (view p) { busy = n })
  pub says_ready :
      (p : P) (bytes : Bytes)
      → (view p).busy ≡ 0
      → (view p).phase ≡ sending bytes
      → (has_bits (io.read p (command_port a)).0 0x80 ≡ false)
        × (has_bits (io.read p (command_port a)).0 0x08 ≡ true)
        × (has_bits (io.read p (command_port a)).0 0x01 ≡ false)
        × (view (io.read p (command_port a)).1 ≡ view p)
  -- The data, the first byte in the low half of a word.
  pub sends :
      (p : P) (lo hi : ℕ) (bytes : Bytes)
      → (view p).busy ≡ 0
      → (view p).phase ≡ sending (lo ∷ hi ∷ bytes)
      → ((io.read p (data_port a)).0 % 2 ^ 8 ≡ lo)
        × ((io.read p (data_port a)).0 / 2 ^ 8 % 2 ^ 8 ≡ hi)
        × (view (io.read p (data_port a)).1 ≡ record (view p) { phase = left bytes })
  pub takes :
      (p : P) (v drive sector : ℕ) (bytes : Bytes)
      → (view p).busy ≡ 0
      → (view p).phase ≡ taking drive sector bytes
      → view (io.write p (data_port a) v)
        ≡ took (view p) drive sector (bytes ++ v % 2 ^ 8 ∷ v / 2 ^ 8 % 2 ^ 8 ∷ [])
  -- Ports of other devices, and the control register with no bit set.
  pub keeps_control : (p : P) → view (io.write p (control_port a) 0x00) ≡ view p
  pub keeps_slave_pic : (p : P) → view (io.write p 0xA0 0x20) ≡ view p
  pub keeps_master_pic : (p : P) → view (io.write p 0x20 0x20) ≡ view p
