-- ===== src/Drivers/Ata/Registers.antt =====
-- The registers of a transfer in src/drivers/ata.cpp name the sector and the drive.
use Prim.Native.Nat.{bit_and, bit_or}
use pingu_os.Common.{
  ℕ, ◌+◌, ◌/◌, ◌%◌, ◌^◌, ◌≤◌, ◌<◌, ◌≡◌, refl, sym, ap, ap₂, ◌∙◌, subst, arith, Bool, true, false,
  [], if◌then◌else◌, shr,
}
use pingu_os.Common.Bits.{bit_and-ones, bit_and-field, bit_or-disjoint}
use pingu_os.Port.{Ports}
use pingu_os.Drivers.Ata.{
  Ata, command_28, has_bits, err_port, sector_count_port, lba_lo_port, lba_mid_port, lba_hi_port,
  drive_head_port,
}
use pingu_os.Drivers.Ata.Device.{DriveState, AtRest, IsAta, drive_of, lba_of, sending, taking}

pub low_byte : (x : ℕ) → bit_and x 0x00FF ≡ x % 2 ^ 8
low_byte x = bit_and-ones 8 x ∙ omega arith

mid_byte : (x : ℕ) → shr (bit_and x 0xFF00) 8 ≡ x / 2 ^ 8 % 2 ^ 8
mid_byte x = omega (arith, bit_and-field 8 8 x)

hi_byte : (x : ℕ) → shr (bit_and x 0xFF0000) 16 ≡ x / 2 ^ 16 % 2 ^ 8
hi_byte x = omega (arith, bit_and-field 16 8 x)

head_bits : (x : ℕ) → shr (bit_and x 0x0F000000) 24 ≡ x / 2 ^ 24 % 2 ^ 4
head_bits x = omega (arith, bit_and-field 24 4 x)

pub top_bits : (x : ℕ) → x < 2 ^ 28 → has_bits x 0xF0000000 ≡ false
top_bits x h =
    let none : bit_and x 0xF0000000 ≡ 0 = omega (arith, bit_and-field 28 4 x) in rw none refl

-- 0 for the master, 1 for the slave.
abbrev pub drive : Bool → ℕ
drive true = 0
drive false = 1

abbrev base_bits : Bool → ℕ
base_bits m_master = if m_master then 0xE0 else 0xF0

head_lem :
    (m_master : Bool) (r : ℕ) → r < 16 → bit_or (base_bits m_master) r ≡ base_bits m_master + r
head_lem true r h = bit_or-disjoint 4 14 r h
head_lem false r h = bit_or-disjoint 4 15 r h

base_low : (m_master : Bool) → base_bits m_master % 16 ≡ 0
base_low true = refl
base_low false = refl

base_drive : (m_master : Bool) → base_bits m_master / 16 % 2 ≡ drive m_master
base_drive true = refl
base_drive false = refl

-- What the registers hold for a sector.
abbrev pub addressed : Bool → DriveState → ℕ → DriveState
addressed m_master st sector = record st {
  head = bit_or (base_bits m_master) (shr (bit_and sector 0x0F000000) 24);
  count = 0x01;
  lba_lo = bit_and sector 0xFF;
  lba_mid = shr (bit_and sector 0xFF00) 8;
  lba_hi = shr (bit_and sector 0xFF0000) 16;
}

pub lba_of-addressed :
    (m_master : Bool) (st : DriveState) (sector : ℕ)
    → sector < 2 ^ 28
    → lba_of (addressed m_master st sector) ≡ sector
lba_of-addressed m_master st sector h =
    let bits = head_bits sector in
    let head = head_lem m_master (shr (bit_and sector 0x0F000000) 24) (omega (arith, bits)) in
    omega (arith, bits, base_low m_master, head, low_byte sector, mid_byte sector, hi_byte sector)

pub drive_of-addressed :
    (m_master : Bool) (st : DriveState) (sector : ℕ)
    → sector < 2 ^ 28
    → drive_of (addressed m_master st sector) ≡ drive m_master
drive_of-addressed m_master st sector h =
    let bits = head_bits sector in
    let head = head_lem m_master (shr (bit_and sector 0x0F000000) 24) (omega (arith, bits)) in
    omega (arith, bits, base_low m_master, head, base_drive m_master)

pub rests : {st st' : DriveState} → st ≡ st' → AtRest st' → AtRest st
rests e h = subst AtRest (sym e) h

module _ {P : Type 0} {io : Ports P} {a : Ata} {count delay : ℕ}
    (ata : IsAta io a count delay) where
  open ata use {view}

  -- The ports in front of the command.
  abbrev pub prepared : P → ℕ → P
  prepared p sector =
      let head = bit_or (base_bits a.m_master) (shr (bit_and sector 0x0F000000) 24) in
      let p₁ = io.write p (drive_head_port a) head in
      let p₂ = io.write p₁ (err_port a) 0 in
      let p₃ = io.write p₂ (sector_count_port a) 0x01 in
      let p₄ = io.write p₃ (lba_lo_port a) (bit_and sector 0xFF) in
      let p₅ = io.write p₄ (lba_mid_port a) (shr (bit_and sector 0xFF00) 8) in
      io.write p₅ (lba_hi_port a) (shr (bit_and sector 0xFF0000) 16)

  pub prepared_lem :
      (p : P) (sector : ℕ)
      → AtRest (view p)
      → view (prepared p sector) ≡ addressed a.m_master (view p) sector
  prepared_lem p sector rest =
      let head = bit_or (base_bits a.m_master) (shr (bit_and sector 0x0F000000) 24) in
      let p₁ = io.write p (drive_head_port a) head in
      let p₂ = io.write p₁ (err_port a) 0 in
      let p₃ = io.write p₂ (sector_count_port a) 0x01 in
      let p₄ = io.write p₃ (lba_lo_port a) (bit_and sector 0xFF) in
      let p₅ = io.write p₄ (lba_mid_port a) (shr (bit_and sector 0xFF00) 8) in
      let lo = bit_and sector 0xFF in
      let mid = shr (bit_and sector 0xFF00) 8 in
      let hi = shr (bit_and sector 0xFF0000) 16 in
      let st₁ : DriveState = record (view p) { head = head } in
      let st₃ : DriveState = record st₁ { count = 0x01 } in
      let st₄ : DriveState = record st₃ { lba_lo = lo } in
      let st₅ : DriveState = record st₄ { lba_mid = mid } in
      let e₁ : view p₁ ≡ st₁ = ata.writes_head p head rest in
      let r₁ : AtRest st₁ = record { is_idle = rest.is_idle; not_busy = rest.not_busy } in
      let e₂ : view p₂ ≡ st₁ = ata.writes_features p₁ 0 (rests e₁ r₁) ∙ e₁ in
      let e₃ : view p₃ ≡ st₃ =
        ata.writes_count p₂ 0x01 (rests e₂ r₁)
        ∙ ap (λ (st : DriveState). record st { count = 0x01 }) e₂ in
      let r₃ : AtRest st₃ = record { is_idle = rest.is_idle; not_busy = rest.not_busy } in
      let e₄ : view p₄ ≡ st₄ =
        ata.writes_lo p₃ lo (rests e₃ r₃)
        ∙ ap (λ (st : DriveState). record st { lba_lo = lo }) e₃ in
      let r₄ : AtRest st₄ = record { is_idle = rest.is_idle; not_busy = rest.not_busy } in
      let e₅ : view p₅ ≡ st₅ =
        ata.writes_mid p₄ mid (rests e₄ r₄)
        ∙ ap (λ (st : DriveState). record st { lba_mid = mid }) e₄ in
      let r₅ : AtRest st₅ = record { is_idle = rest.is_idle; not_busy = rest.not_busy } in
      ata.writes_hi p₅ hi (rests e₅ r₅) ∙ ap (λ (st : DriveState). record st { lba_hi = hi }) e₅

  -- The commands: the sector is on its way, or the drive waits for it.
  pub read_command :
      (p : P) (sector : ℕ)
      → AtRest (view p)
      → sector < 2 ^ 28
      → sector < count
      → (n : ℕ) × (n ≤ delay)
        × (view (command_28 io a p sector 0x20) ≡ record (addressed a.m_master (view p) sector) {
          phase = sending ((view p).sectors (drive a.m_master) sector);
          busy = n;
        })
  unfolding command_28
  read_command p sector rest word there =
      let e = prepared_lem p sector rest in
      let st = addressed a.m_master (view p) sector in
      let r : AtRest st = record { is_idle = rest.is_idle; not_busy = rest.not_busy } in
      let one : (view (prepared p sector)).count ≡ 1 = ap (λ (s : DriveState). s.count) e in
      let lba : lba_of (view (prepared p sector)) ≡ sector =
        ap lba_of e ∙ lba_of-addressed a.m_master (view p) sector word in
      let answer =
        ata.reads_sector (prepared p sector) (rests e r) one
          (subst (λ n. n < count) (sym lba) there) in
      (
        answer.0,
        answer.1,
        answer.2
            ∙ ap
                (λ (s : DriveState). record s {
                  phase = sending (s.sectors (drive_of s) (lba_of s));
                  busy = answer.0;
                })
                e
            ∙ ap₂ (λ d n. (record st { phase = sending (st.sectors d n); busy = answer.0 }))
                (drive_of-addressed a.m_master (view p) sector word)
                (lba_of-addressed a.m_master (view p) sector word),
      )

  pub write_command :
      (p : P) (sector : ℕ)
      → AtRest (view p)
      → sector < 2 ^ 28
      → sector < count
      → view (command_28 io a p sector 0x30) ≡ record (addressed a.m_master (view p) sector) {
        phase = taking (drive a.m_master) sector [];
      }
  unfolding command_28
  write_command p sector rest word there =
      let e = prepared_lem p sector rest in
      let st = addressed a.m_master (view p) sector in
      let r : AtRest st = record { is_idle = rest.is_idle; not_busy = rest.not_busy } in
      let one : (view (prepared p sector)).count ≡ 1 = ap (λ (s : DriveState). s.count) e in
      let lba : lba_of (view (prepared p sector)) ≡ sector =
        ap lba_of e ∙ lba_of-addressed a.m_master (view p) sector word in
      let unit : drive_of (view (prepared p sector)) ≡ drive a.m_master =
        ap drive_of e ∙ drive_of-addressed a.m_master (view p) sector word in
      ata.writes_sector (prepared p sector) (rests e r) one (subst (λ n. n < count) (sym lba) there)
      ∙ ap (λ (s : DriveState). record s { phase = taking (drive_of s) (lba_of s) [] }) e
      ∙ ap₂ {C = DriveState} (λ d n. record st { phase = taking d n [] })
          (drive_of-addressed a.m_master (view p) sector word)
          (lba_of-addressed a.m_master (view p) sector word)
