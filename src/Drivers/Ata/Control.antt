-- ===== src/Drivers/Ata/Control.antt =====
-- The commands of src/drivers/ata.cpp that transfer no sector.
use pingu_os.Common.{
  ℕ, zero, suc, not, ◌&&◌, Option, none, some, ◌>>=◌, [], ◌∷◌, ◌++◌, ◌==◌, if◌then◌else◌, shr,
}
use Prim.Native.Nat.{bit_and}
use pingu_os.Common.Bytes.{Bytes, c_string}
use pingu_os.Port.{Ports}
use pingu_os.Drivers.Disk.{success, dne, not_ata, other}
use pingu_os.Drivers.Ata.{
  Ata, Outcome, data_port, sector_count_port, lba_lo_port, lba_mid_port, lba_hi_port, command_port,
  control_port, drive_dne, error, has_bits, select_drive, wait_busy,
}

abbrev not_ata_text : Bytes
not_ata_text = b'N' ∷ b'o' ∷ b't' ∷ b' ' ∷ b'A' ∷ b'T' ∷ b'A' ∷ []

module _ {P : Type 0} (io : Ports P) (a : Ata) where
  -- The loops that go on while both a bit of the status and its error bit are set.
  unfoldable pub wait_both : ℕ → ℕ → ℕ × P → Option (ℕ × P)
  wait_both mask zero s = none
  wait_both mask (suc fuel) (status, p) =
      let rest = wait_both mask fuel (io.read p (command_port a)) in
      if has_bits status mask && has_bits status 0x01 then rest else some (status, p)

  -- The words of the answer are printed, each as a C string of two characters.
  unfoldable pub print_words : ℕ → P → Bytes × P
  print_words zero p = ([], p)
  print_words (suc words) p =
      let (w, p') = io.read p (data_port a) in
      let foo = c_string (bit_and w 0x00FF ∷ bit_and (shr w 8) 0x00FF ∷ []) in
      let (printed, q) = print_words words p' in (foo ++ printed, q)

  unfoldable pub identified : ℕ × P → Outcome P
  identified (status, p) =
      if has_bits status 0x01
      then record { err = other; bytes = []; printed = error; ports = p }
      else (let (printed, q) = print_words 256 p in
          record { err = success; bytes = []; printed = printed; ports = q })

  unfoldable pub check_signature : ℕ → ℕ × P → Option (Outcome P)
  check_signature fuel (status, p) =
      let (lba_mid, p₁) = io.read p (lba_mid_port a) in
      let (lba_hi, p₂) = io.read p₁ (lba_hi_port a) in
      if not (lba_hi == 0) && not (lba_mid == 0)
      then some (record { err = not_ata; bytes = []; printed = not_ata_text; ports = p₂ })
      else (do waited ← wait_both 0x08 fuel (status, p₂); some (identified waited))

  unfoldable pub identify_answer : ℕ → ℕ × P → Option (Outcome P)
  identify_answer fuel (status, p) =
      if status == 0
      then some (record { err = dne; bytes = []; printed = drive_dne; ports = p })
      else (do ready ← wait_busy io a fuel (status, p); check_signature fuel ready)

  unfoldable pub identify : ℕ → P → Option (Outcome P)
  identify fuel p =
      let p₁ = select_drive io a p (if a.m_master then 0xA0 else 0xB0) in
      let p₂ = io.write (io.write p₁ (sector_count_port a) 0x00) (lba_lo_port a) 0x00 in
      let p₃ = io.write (io.write p₂ (lba_mid_port a) 0x00) (lba_hi_port a) 0x00 in
      identify_answer fuel (io.read (io.write p₃ (command_port a) 0xEC) (command_port a))

  unfoldable pub flushed : ℕ × P → Outcome P
  flushed (status, p) =
      if has_bits status 0x01
      then record { err = other; bytes = []; printed = error; ports = p }
      else record { err = success; bytes = []; printed = []; ports = p }

  unfoldable pub flush : ℕ → P → Option (Outcome P)
  flush fuel p = do
    let p₁ = select_drive io a p (if a.m_master then 0xE0 else 0xF0)
    waited ← wait_both 0x80 fuel (io.read (io.write p₁ (command_port a) 0xE7) (command_port a))
    some (flushed waited)

  -- What `reset` returns is not defined in the source.
  unfoldable pub reset : P → P
  reset p = io.write (select_drive io a p (if a.m_master then 0xE0 else 0xF0)) (control_port a) 0x00
