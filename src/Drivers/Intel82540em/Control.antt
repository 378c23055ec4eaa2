-- ===== src/Drivers/Intel82540em/Control.antt =====
-- The registers of `Intel_82540EM` in src/drivers/intel_82540em.cpp: reset, the PHY, the EEPROM.
use Prim.Native.Nat.{bit_and, bit_or}
use pingu_os.Common.{
  ℕ, zero, suc, ◌*◌, ◌^◌, Bool, true, false, not, Option, none, some, [], ◌∷◌, ◌++◌, if◌then◌else◌,
  shr,
}
use pingu_os.Common.Bytes.{Bytes, codes}
use pingu_os.Port.{Ports}
use pingu_os.Kernel.{hex_digits}
use pingu_os.Pci.{Function, compute_id, command_port, data_port}
use pingu_os.Pci.Drivers.{hex_digits32}
use pingu_os.Drivers.Intel82540em.{Nic, line, is_set, read_reg, write_reg, say, say_if}

abbrev pub status_offset : ℕ
status_offset = 0x08

abbrev pub eerd_offset : ℕ
eerd_offset = 0x14

abbrev pub mdi_ctrl_offset : ℕ
mdi_ctrl_offset = 0x20

abbrev pub rctl_offset : ℕ
rctl_offset = 0x0100

abbrev pub tctl_offset : ℕ
tctl_offset = 0x0400

abbrev pub tipg_offset : ℕ
tipg_offset = 0x0404

abbrev pub rdbal_offset : ℕ
rdbal_offset = 0x2800

abbrev pub rdbah_offset : ℕ
rdbah_offset = 0x2804

abbrev pub rdlen_offset : ℕ
rdlen_offset = 0x2806

abbrev pub rdh_offset : ℕ
rdh_offset = 0x2810

abbrev pub tdh_offset : ℕ
tdh_offset = 0x3810

abbrev pub tbal_offset : ℕ
tbal_offset = 0x3800

abbrev pub tbah_offset : ℕ
tbah_offset = 0x3804

abbrev pub tlen_offset : ℕ
tlen_offset = 0x3808

abbrev pub ral_offset : ℕ
ral_offset = 0x5400

abbrev pub rah_offset : ℕ
rah_offset = 0x5404

abbrev pub phy_ctrl_reg : ℕ
phy_ctrl_reg = 0

abbrev pub phy_status_reg : ℕ
phy_status_reg = 1

abbrev pub phy_ana_reg : ℕ
phy_ana_reg = 4

module _ {P : Type 0} (io : Ports P) where
  -- `SET_REG`, and `RESET_REG` with its mask as the macro expands it.
  abbrev pub set_reg : Nic P → ℕ → ℕ → Nic P
  set_reg s offset bits =
      let (value, s') = read_reg io s offset in write_reg io s' offset (bit_or value bits)

  abbrev pub mask_reg : Nic P → ℕ → ℕ → Nic P
  mask_reg s offset mask =
      let (value, s') = read_reg io s offset in write_reg io s' offset (bit_and value mask)

  -- The ports of the configuration space are not those of the device.
  unfoldable pub enable_bus_mastering : Nic P → Function → Bool × Nic P
  enable_bus_mastering s dev =
      let id = compute_id dev 4 in
      let (cmd_reg, p₁) = io.read (io.write s.ports command_port id) data_port in
      let p₂ = io.write (io.write p₁ command_port id) data_port (bit_or cmd_reg 0x4) in
      let (verify, p₃) = io.read (io.write p₂ command_port id) data_port in
      (is_set verify 0x4, record s { ports = p₃ })

  abbrev pub byte_of : ℕ → ℕ → ℕ
  byte_of word n = bit_and (shr word (8 * n)) 0xFF

  unfoldable pub show_mac_addr : Bytes → Bytes
  show_mac_addr [] = []
  show_mac_addr (b ∷ []) = hex_digits b
  show_mac_addr (b ∷ c ∷ bytes) = hex_digits b ++ (b':' ∷ show_mac_addr (c ∷ bytes))

  unfoldable pub get_mac_addr : Nic P → Nic P
  get_mac_addr s =
      let (ral, s₁) = read_reg io s ral_offset in
      let (rah_word, s₂) = read_reg io s₁ rah_offset in
      let rah = bit_and rah_word 0xFFFF in
      let mac =
        byte_of ral 0
        ∷ byte_of ral 1
        ∷ byte_of ral 2
        ∷ byte_of ral 3
        ∷ byte_of rah 0
        ∷ byte_of rah 1
        ∷ [] in
      say io (record s₂ { m_mac_addr = mac }) (codes "MAC Address: " ++ line (show_mac_addr mac))

  -- Loops of a fixed number of rounds that stop at a condition.
  unfoldable pub poll : ℕ → ℕ → (ℕ → Bool) → Nic P → Bool × Nic P
  poll zero offset ready s = (false, s)
  poll (suc rounds) offset ready s =
      let (value, s') = read_reg io s offset in
      let rest = poll rounds offset ready s' in if ready value then (true, s') else rest

  -- 0 if the bit has cleared, and else -1.
  unfoldable pub reset : Nic P → Bool × Nic P
  reset s = poll 10000 0 (λ value. not (is_set value 0x4000000)) (set_reg s 0 0x4000000)

  unfoldable pub start_phy : Nic P → ℕ → Bool × Nic P
  start_phy s bits =
      let s₁ = mask_reg s mdi_ctrl_offset 0xEFFFFFFF in
      poll 1000 mdi_ctrl_offset (λ value. is_set value 0x10000000) (set_reg s₁ mdi_ctrl_offset bits)

  unfoldable pub write_phy : Nic P → ℕ → ℕ → Bool × Nic P
  write_phy s reg value =
      let bits = bit_or (bit_or (bit_or value (2 ^ 16 * reg)) 0x200000) 0x4000000 in
      let (ready, s₁) = start_phy s bits in
      let s₂ = say_if io (not ready) s₁ (line (codes "Write phy timed out")) in
      let (answer, s₃) = read_reg io s₂ mdi_ctrl_offset in (is_set answer 0x40000000, s₃)

  unfoldable pub read_phy : Nic P → ℕ → ℕ × Nic P
  read_phy s reg =
      let (ready, s₁) = start_phy s (bit_or (bit_or (2 ^ 16 * reg) 0x200000) 0x8000000) in
      let (answer, s₂) = read_reg io s₁ mdi_ctrl_offset in
      if ready
      then (bit_and answer 0xFFFF, s₂)
      else (0xFFFFFFFF, say io s₁ (line (codes "Read PHY timed out")))

  -- The rounds that wait for the link.
  unfoldable pub await_link : ℕ → ℕ → Nic P → Bool × ℕ × Nic P
  await_link zero status s = (false, status, s)
  await_link (suc rounds) status s =
      let (status', s') = read_phy s phy_status_reg in
      let rest = await_link rounds status' s' in
      if is_set status' 0x20 then (true, status', s') else rest

  unfoldable pub init : Nic P → Bool × Nic P
  init s =
      let (wrote, s₁) = write_phy (set_reg s 0 0x860) phy_ctrl_reg 0x9200 in
      let s₂ = say_if io (not wrote) s₁ (line (codes "Write failed")) in
      let (wrote', s₃) = write_phy s₂ phy_ana_reg 0x0DE1 in
      let s₄ = say_if io (not wrote') s₃ (line (codes "Write failed")) in
      let s₅ = (read_reg io s₄ status_offset).1 in
      let (good_status, status, s₆) = await_link 10000 0 s₅ in
      (
        good_status,
        say_if io (not good_status) s₆
            (line (codes "Auto-negotiation failed") ++ hex_digits32 status),
      )

  unfoldable pub await_eeprom : ℕ → Nic P → Option ℕ × Nic P
  await_eeprom zero s = (none, s)
  await_eeprom (suc rounds) s =
      let (val, s') = read_reg io s eerd_offset in
      let rest = await_eeprom rounds s' in if is_set val 0x10 then (some (shr val 16), s') else rest

  unfoldable pub eeprom_answer : Option ℕ → Nic P → ℕ × Nic P
  eeprom_answer (some val) s = (val, s)
  eeprom_answer none s = (0, say io s (codes "EEPROM read timeout"))

  unfoldable pub read_eeprom : Nic P → ℕ → ℕ × Nic P
  read_eeprom s addr =
      let (answer, s') = await_eeprom 100 (set_reg s eerd_offset (bit_or (2 ^ 8 * addr) 1)) in
      eeprom_answer answer s'
