-- ===== src/Drivers/Ata/Reading.antt =====
-- `read_28` of src/drivers/ata.cpp gives the bytes of the sector.
use pingu_os.Common.{
  ℕ, zero, suc, ◌+◌, ◌-◌, ◌*◌, ◌/◌, ◌%◌, ◌^◌, ◌≤◌, ◌<◌, ◌≡◌, refl, sym, ap, ap₂, ◌∙◌, arith, true,
  false, some, [], ◌∷◌, ◌==◌, ltb, shr, length, take, drop, length-drop,
}
use pingu_os.Common.Bytes.{Bytes}
use pingu_os.Port.{Ports}
use pingu_os.Drivers.Disk.{success, sector_size}
use pingu_os.Drivers.Ata.{
  Ata, Outcome, has_bits, command_port, command_28, wait_busy, wait_data, read_data, skip_words,
  words_behind, end_of_interrupt, receive, read_sector, read_28,
}
use pingu_os.Drivers.Ata.Device.{DriveState, AtRest, IsAta, left, sending}
use pingu_os.Drivers.Ata.Registers.{low_byte, top_bits, drive, addressed, rests, read_command}

nonzero_busy : (s : ℕ) → has_bits s 0x80 ≡ true → (s == 0) ≡ false
nonzero_busy zero h = cc
nonzero_busy (suc s) h = ground arith

nonzero_data : (s : ℕ) → has_bits s 0x08 ≡ true → (s == 0) ≡ false
nonzero_data zero h = cc
nonzero_data (suc s) h = ground arith

first_byte : (l : Bytes) → length l ≡ sector_size → (x : ℕ) × (r : Bytes) × (l ≡ x ∷ r)
first_byte [] h = absurd (omega (arith, h))
first_byte (x ∷ r) h = (x, r, refl)

-- The drive has these bytes for the host, and is not busy.
abbrev offering : DriveState → Bytes → DriveState
offering st bytes = record st { phase = left bytes; busy = 0 }

module _ {P : Type 0} {io : Ports P} {a : Ata} {count delay : ℕ}
    (ata : IsAta io a count delay) where
  open ata use {view}

  -- The status loop ends, with the data ready.
  record Ready (st : DriveState) (x : ℕ) (bytes : Bytes) (fuel : ℕ) (s : ℕ × P) : Type 0 where
    status : ℕ
    ports : P
    nonzero : (s.0 == 0) ≡ false
    waited : wait_busy io a fuel s ≡ some (status, ports)
    has_data : has_bits status 0x08 ≡ true
    no_error : has_bits status 0x01 ≡ false
    offered : view ports ≡ offering st (x ∷ bytes)

  wait_busy-Ready :
      (n fuel : ℕ) (st : DriveState) (x : ℕ) (bytes : Bytes) (p : P)
      → view p ≡ record st { phase = sending (x ∷ bytes); busy = n }
      → n < fuel
      → Ready st x bytes fuel (io.read p (command_port a))
  unfolding wait_busy
  wait_busy-Ready n zero st x bytes p e h = absurd (omega arith)
  wait_busy-Ready zero (suc fuel) st x bytes p e h =
      let r =
        ata.says_ready p (x ∷ bytes) (ap (λ (s : DriveState). s.busy) e)
          (ap (λ (s : DriveState). s.phase) e) in
      let answer = io.read p (command_port a) in
      record {
        status = answer.0;
        ports = answer.1;
        nonzero = nonzero_data answer.0 r.1;
        waited = rw r.0 refl;
        has_data = r.1;
        no_error = r.2;
        offered = r.3 ∙ e;
      }
  wait_busy-Ready (suc n) (suc fuel) st x bytes p e h =
      let r = ata.says_busy p n (ap (λ (s : DriveState). s.busy) e) in
      let answer = io.read p (command_port a) in
      let e' = r.1 ∙ ap (λ (s : DriveState). record s { busy = n }) e in
      let rest = wait_busy-Ready n fuel st x bytes answer.1 e' (omega (arith, h)) in
      record {
        status = rest.status;
        ports = rest.ports;
        nonzero = nonzero_busy answer.0 r.0;
        waited = rw r.0 rest.waited;
        has_data = rest.has_data;
        no_error = rest.no_error;
        offered = rest.offered;
      }

  -- A word is taken from the data port.
  next_word :
      (st : DriveState) (lo hi : ℕ) (bytes : Bytes) (p : P)
      → view p ≡ offering st (lo ∷ hi ∷ bytes)
      → ((io.read p a.port_base).0 % 2 ^ 8 ≡ lo)
        × ((io.read p a.port_base).0 / 2 ^ 8 % 2 ^ 8 ≡ hi)
        × (view (io.read p a.port_base).1 ≡ offering st bytes)
  next_word st lo hi bytes p e =
      let r =
        ata.sends p lo hi bytes (ap (λ (s : DriveState). s.busy) e)
          (ap (λ (s : DriveState). s.phase) e) in
      (r.0, r.1, r.2 ∙ ap (λ (s : DriveState). record s { phase = left bytes }) e)

  read_data_lem :
      (n k : ℕ) (st : DriveState) (bytes : Bytes) (p : P)
      → view p ≡ offering st bytes
      → n ≤ length bytes
      → length bytes ≡ 2 * k
      → ((read_data io a n p).0 ≡ take n bytes)
        × (view (read_data io a n p).1 ≡ offering st (drop (n + n % 2) bytes))
  unfolding read_data
  read_data_lem zero k st bytes p e h even = (refl, e)
  read_data_lem (suc n) k st [] p e h even = absurd (omega (arith, h))
  read_data_lem (suc n) k st (lo ∷ []) p e h even = absurd (omega (arith, even))
  read_data_lem (suc zero) k st (lo ∷ hi ∷ bytes) p e h even =
      let w = next_word st lo hi bytes p e in
      (ap (λ (b : ℕ). b ∷ []) (low_byte (io.read p a.port_base).0 ∙ w.0), w.2)
  read_data_lem (suc (suc n)) k st (lo ∷ hi ∷ bytes) p e h even =
      let w = next_word st lo hi bytes p e in
      let word = (io.read p a.port_base).0 in
      let rest =
        read_data_lem n (k - 1) st bytes (io.read p a.port_base).1 w.2 (omega (arith, h))
          (omega (arith, even)) in
      let shift : suc (suc n) + suc (suc n) % 2 ≡ suc (suc (n + n % 2)) = omega arith in
      let low = low_byte word ∙ w.0 in
      let high = low_byte (shr word 8) ∙ w.1 in
      (
        ap₂ (λ (b c : ℕ). b ∷ c ∷ (read_data io a n (io.read p a.port_base).1).0) low high
            ∙ ap (λ l. lo ∷ hi ∷ l) rest.0,
        rest.1 ∙ ap (λ m. offering st (drop m (lo ∷ hi ∷ bytes))) (sym shift),
      )

  skip_words_lem :
      (k : ℕ) (st : DriveState) (bytes : Bytes) (p : P)
      → view p ≡ offering st bytes
      → length bytes ≡ 2 * k
      → view (skip_words io a k p) ≡ offering st []
  unfolding skip_words
  skip_words_lem zero st [] p e even = e
  skip_words_lem zero st (x ∷ bytes) p e even = absurd (omega (arith, even))
  skip_words_lem (suc k) st [] p e even = absurd (omega (arith, even))
  skip_words_lem (suc k) st (lo ∷ []) p e even = absurd (omega (arith, even))
  skip_words_lem (suc k) st (lo ∷ hi ∷ bytes) p e even =
      skip_words_lem k st bytes (io.read p a.port_base).1 (next_word st lo hi bytes p e).2
        (omega (arith, even))

  receive_lem :
      (n status : ℕ) (st : DriveState) (bytes : Bytes) (p : P)
      → view p ≡ offering st bytes
      → n ≤ sector_size
      → length bytes ≡ sector_size
      → has_bits status 0x01 ≡ false
      → let o = receive io a n (success, status, p) in
        (o.err ≡ success) × (o.bytes ≡ take n bytes) × (view o.ports ≡ offering st [])
  unfolding receive end_of_interrupt
  receive_lem n status st bytes p e short full fine =
      let d = read_data_lem n 256 st bytes p e (omega (arith, short, full)) (omega (arith, full)) in
      let rest = drop (n + n % 2) bytes in
      let size : length rest ≡ 2 * words_behind io a n =
        length-drop (n + n % 2) bytes ∙ omega (arith, full, short) in
      let q = skip_words io a (words_behind io a n) (read_data io a n p).1 in
      let s = skip_words_lem (words_behind io a n) st rest (read_data io a n p).1 d.1 size in
      rw fine (refl, d.0, ata.keeps_master_pic (io.write q 0xA0 0x20) ∙ ata.keeps_slave_pic q ∙ s)

  read_sector_lem :
      (n fuel : ℕ) (st : DriveState) (x : ℕ) (bytes : Bytes) (s : ℕ × P)
      → n ≤ sector_size
      → length (x ∷ bytes) ≡ sector_size
      → Ready st x bytes (suc fuel) s
      → (o : Outcome P) × (read_sector io a (suc fuel) n s ≡ some o)
        × (o.err ≡ success)
        × (o.bytes ≡ take n (x ∷ bytes))
        × (view o.ports ≡ offering st [])
  unfolding read_sector wait_data
  read_sector_lem n fuel st x bytes s short full r =
      let o = receive io a n (success, r.status, r.ports) in
      let l = receive_lem n r.status st (x ∷ bytes) r.ports r.offered short full r.no_error in
      (o, rw (r.nonzero, r.waited, r.has_data) refl, l.0, l.1, l.2)

  -- At a drive at rest that is busy with the command for less than `fuel` reads of its status, a
  -- read of up to 512 bytes of a sector that the drive has gives the first bytes of that sector
  -- without an error; the drive is at rest again, and no sector of either drive has changed.
  pub read_28-reads :
      (fuel : ℕ) (p : P) (sector n : ℕ)
      → AtRest (view p)
      → sector < 2 ^ 28
      → sector < count
      → n ≤ sector_size
      → delay < fuel
      → (o : Outcome P) × (read_28 io a fuel p sector n ≡ some o)
        × (o.err ≡ success)
        × (o.bytes ≡ take n ((view p).sectors (drive a.m_master) sector))
        × AtRest (view o.ports)
        × ((view o.ports).sectors ≡ (view p).sectors)
  unfolding read_28
  read_28-reads zero p sector n rest word there short h = absurd (omega arith)
  read_28-reads (suc fuel) p sector n rest word there short h =
      let c = read_command ata p sector rest word there in
      let st = addressed a.m_master (view p) sector in
      let l = (view p).sectors (drive a.m_master) sector in
      let full = ata.full_sector p (drive a.m_master) sector in
      let cut = first_byte l full in
      let q = command_28 io a p sector 0x20 in
      let sent : view q ≡ record st { phase = sending (cut.0 ∷ cut.1); busy = c.0 } =
        c.2 ∙ ap (λ b. (record st { phase = sending b; busy = c.0 })) cut.2 in
      let r = wait_busy-Ready c.0 (suc fuel) st cut.0 cut.1 q sent (omega (arith, c.1, h)) in
      let o =
        read_sector_lem n fuel st cut.0 cut.1 (io.read q (command_port a)) short
          (ap length (sym cut.2) ∙ full) r in
      let allowed : ltb sector_size n ≡ false = ground arith in
      (
        o.0,
        rw (top_bits sector word, allowed) o.1,
        o.2,
        o.3 ∙ ap (take n) (sym cut.2),
        rests o.4 (record { is_idle = refl; not_busy = refl }),
        ap (λ (s : DriveState). s.sectors) o.4,
      )
