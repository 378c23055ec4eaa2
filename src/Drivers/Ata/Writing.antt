-- ===== src/Drivers/Ata/Writing.antt =====
-- `write_28` of src/drivers/ata.cpp stores the bytes in the sector.
use Prim.Native.Nat.{bit_or}
use pingu_os.Common.{
  ℕ, zero, suc, ◌+◌, ◌-◌, ◌*◌, ◌/◌, ◌%◌, ◌^◌, ◌≤◌, ◌<◌, ◌≡◌, refl, sym, ap, ap₂, ◌∙◌, arith, true,
  false, [], ◌∷◌, ◌++◌, append_assoc, append-nil, ◌==◌, ==_iff, ltb, if◌then◌else◌, length,
  replicate, length-append, length-replicate,
}
use pingu_os.Common.Bits.{bit_or-disjoint, bit_or-zero}
use pingu_os.Common.Bytes.{Bytes}
use pingu_os.Port.{Ports}
use pingu_os.Drivers.Disk.{success, sector_size}
use pingu_os.Drivers.Ata.{Ata, data_port, command_28, write_data, pad_words, words_behind, write_28}
use pingu_os.Drivers.Ata.Device.{DriveState, AtRest, IsAta, taking, idle, store, took}
use pingu_os.Drivers.Ata.Registers.{top_bits, drive, addressed, rests, write_command}

abbrev pub AllBytes : Bytes → Type 0
AllBytes [] = Unit {0}
AllBytes (x ∷ l) = (x < 2 ^ 8) × AllBytes l

-- The bytes as they are sent, in words: a zero behind the last one if their number is odd.
abbrev evened : Bytes → Bytes
evened [] = []
evened (lo ∷ []) = lo ∷ 0 ∷ []
evened (lo ∷ hi ∷ bytes) = lo ∷ hi ∷ evened bytes

length-evened : (l : Bytes) → length (evened l) ≡ length l + length l % 2
length-evened [] = omega arith
length-evened (lo ∷ []) = omega arith
length-evened (lo ∷ hi ∷ l) = omega (arith, length-evened l)

evened_lem : (l : Bytes) → evened l ≡ l ++ replicate (length l % 2) 0
evened_lem [] = refl
evened_lem (lo ∷ []) = refl
evened_lem (lo ∷ hi ∷ l) =
    let parity : suc (suc (length l)) % 2 ≡ length l % 2 = omega arith in
    ap (λ r. lo ∷ hi ∷ r) (evened_lem l) ∙ ap (λ n. lo ∷ hi ∷ (l ++ replicate n 0)) (sym parity)

replicate_add : (n m x : ℕ) → replicate n x ++ replicate m x ≡ replicate (n + m) x
replicate_add zero m x = let same : m ≡ 0 + m = omega arith in ap (λ k. replicate k x) same
replicate_add (suc n) m x =
    let shift : suc (n + m) ≡ suc n + m = omega arith in
    ap (λ l. x ∷ l) (replicate_add n m x) ∙ ap (λ k. replicate k x) shift

-- What the drive has at the end of a sector.
padded :
    (l : Bytes)
    → length l ≤ sector_size
    → evened l ++ replicate (sector_size - (length l + length l % 2)) 0
      ≡ l ++ replicate (sector_size - length l) 0
padded l h =
    let odd = length l % 2 in
    let behind = sector_size - (length l + odd) in
    let sum : odd + behind ≡ sector_size - length l = omega (arith, h) in
    ap (λ r. r ++ replicate behind 0) (evened_lem l)
    ∙ append_assoc l (replicate odd 0) (replicate behind 0)
    ∙ ap (λ r. l ++ r) (replicate_add odd behind 0)
    ∙ ap (λ n. l ++ replicate n 0) sum

module _ {P : Type 0} {io : Ports P} {a : Ata} {count delay : ℕ}
    (ata : IsAta io a count delay) where
  open ata use {view}

  module _ (st : DriveState) (still : st.busy ≡ 0) (d s : ℕ) where
    -- A word is sent.
    next_word :
        (v : ℕ) (got : Bytes) (p : P)
        → view p ≡ took st d s got
        → length got + 2 ≤ sector_size
        → view (io.write p (data_port a) v)
          ≡ took st d s (got ++ v % 2 ^ 8 ∷ v / 2 ^ 8 % 2 ^ 8 ∷ [])
    next_word v got p e room =
        let open_still : (length got == sector_size) ≡ false = ground (arith, room) in
        let st' : DriveState = record st { phase = taking d s got } in
        let known : took st d s got ≡ st' = rw open_still refl in
        let e' = e ∙ known in
        let new = got ++ v % 2 ^ 8 ∷ v / 2 ^ 8 % 2 ^ 8 ∷ [] in
        ata.takes p v d s got (ap (λ (t : DriveState). t.busy) e' ∙ still)
          (ap (λ (t : DriveState). t.phase) e')
        ∙ ap (λ t. took t d s new) e'

    sent :
        (lo hi : ℕ) (got : Bytes) (p : P)
        → lo < 2 ^ 8
        → hi < 2 ^ 8
        → view p ≡ took st d s got
        → length got + 2 ≤ sector_size
        → view (io.write p (data_port a) (bit_or (2 ^ 8 * hi) lo))
          ≡ took st d s (got ++ lo ∷ hi ∷ [])
    sent lo hi got p low high e room =
        let word = bit_or (2 ^ 8 * hi) lo in
        let sum : word ≡ 2 ^ 8 * hi + lo = bit_or-disjoint 8 hi lo low in
        let first : word % 2 ^ 8 ≡ lo = omega (arith, sum, low) in
        let second : word / 2 ^ 8 % 2 ^ 8 ≡ hi = omega (arith, sum, low, high) in
        next_word word got p e room
        ∙ ap₂ (λ (x y : ℕ). took st d s (got ++ x ∷ y ∷ [])) first second

    write_data_lem :
        (bytes got : Bytes) (k : ℕ) (p : P)
        → AllBytes bytes
        → view p ≡ took st d s got
        → length got ≡ 2 * k
        → length got + length bytes ≤ sector_size
        → view (write_data io a p bytes) ≡ took st d s (got ++ evened bytes)
    unfolding write_data
    write_data_lem [] got k p h e even room = e ∙ ap (took st d s) (sym (append-nil got))
    write_data_lem (lo ∷ []) got k p h e even room =
        let same : bit_or lo 0 ≡ bit_or (2 ^ 8 * 0) lo =
          omega (arith, bit_or-zero lo, bit_or-disjoint 8 0 lo h.0) in
        ap (λ v. view (io.write p (data_port a) v)) same
        ∙ sent lo 0 got p h.0 (omega arith) e (omega (arith, even, room))
    write_data_lem (lo ∷ hi ∷ bytes) got k p h e even room =
        let p' = io.write p (data_port a) (bit_or (2 ^ 8 * hi) lo) in
        let e' = sent lo hi got p h.0 h.1.0 e (omega (arith, room)) in
        let size = length-append got (lo ∷ hi ∷ []) in
        write_data_lem bytes (got ++ lo ∷ hi ∷ []) (k + 1) p' h.1.1 e' (omega (arith, size, even))
          (omega (arith, size, room))
        ∙ ap (took st d s) (append_assoc got (lo ∷ hi ∷ []) (evened bytes))

    pad_words_lem :
        (k : ℕ) (got : Bytes) (p : P)
        → view p ≡ took st d s got
        → length got + 2 * k ≤ sector_size
        → view (pad_words io a k p) ≡ took st d s (got ++ replicate (2 * k) 0)
    unfolding pad_words
    pad_words_lem zero got p e room = e ∙ ap (took st d s) (sym (append-nil got))
    pad_words_lem (suc k) got p e room =
        let e' = next_word 0 got p e (omega (arith, room)) in
        let size = length-append got (0 ∷ 0 ∷ []) in
        let shift : suc (suc (2 * k)) ≡ 2 * suc k = omega arith in
        pad_words_lem k (got ++ 0 ∷ 0 ∷ []) (io.write p (data_port a) 0) e'
          (omega (arith, size, room))
        ∙ ap (took st d s) (
            append_assoc got (0 ∷ 0 ∷ []) (replicate (2 * k) 0)
            ∙ ap (λ n. got ++ replicate n 0) shift)

  -- At a drive at rest, a write of up to 512 bytes to a sector that the drive has stores them, with
  -- zeros behind them up to the end of the sector, without an error; the drive is at rest again, and
  -- no other sector of either drive has changed.
  pub write_28-stores :
      (p : P) (sector : ℕ) (bytes : Bytes)
      → AtRest (view p)
      → sector < 2 ^ 28
      → sector < count
      → length bytes ≤ sector_size
      → AllBytes bytes
      → let o = write_28 io a p sector bytes in
        (o.err ≡ success)
        × AtRest (view o.ports)
        × ((view o.ports).sectors
            ≡ store
                (view p).sectors
                (drive a.m_master)
                sector
                (bytes ++ replicate (sector_size - length bytes) 0))
  unfolding write_28
  write_28-stores p sector bytes rest word there short all =
      let c = write_command ata p sector rest word there in
      let st = addressed a.m_master (view p) sector in
      let d = drive a.m_master in
      let allowed : ltb sector_size (length bytes) ≡ false = ground arith in
      let k = words_behind io a (length bytes) in
      let twice : 2 * k ≡ sector_size - (length bytes + length bytes % 2) = omega (arith, short) in
      let q = write_data io a (command_28 io a p sector 0x30) bytes in
      let sent =
        write_data_lem st rest.not_busy d sector bytes [] 0 (command_28 io a p sector 0x30) all c
          refl (omega (arith, short)) in
      let full =
        pad_words_lem st rest.not_busy d sector k (evened bytes) q sent
          (omega (arith, length-evened bytes, twice, short)) in
      let done : view (pad_words io a k q)
          ≡ took st d sector (bytes ++ replicate (sector_size - length bytes) 0) =
        full
        ∙ ap (λ n. took st d sector (evened bytes ++ replicate n 0)) twice
        ∙ ap (took st d sector) (padded bytes short) in
      let sector' = bytes ++ replicate (sector_size - length bytes) 0 in
      let size : length sector' ≡ sector_size =
        length-append bytes (replicate (sector_size - length bytes) 0)
        ∙ omega (arith, length-replicate {A = ℕ} (sector_size - length bytes) 0, short) in
      let whole : (length sector' == sector_size) ≡ true =
        (==_iff (length sector') sector_size).1 size in
      let st' : DriveState = record st {
        phase = idle;
        sectors = store (view p).sectors d sector sector';
      } in
      let last : took st d sector sector' ≡ st' =
        ap (λ b. if b then st' else record st { phase = taking d sector sector' }) whole in
      let stored = ata.keeps_control (pad_words io a k q) ∙ done ∙ last in
      rw (top_bits sector word, allowed)
        (
          refl,
          rests stored (record { is_idle = refl; not_busy = rest.not_busy }),
          ap (λ (t : DriveState). t.sectors) stored,
        )
