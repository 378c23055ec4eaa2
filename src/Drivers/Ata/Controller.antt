-- ===== src/Drivers/Ata/Controller.antt =====
-- A controller in memory that answers as Drivers.Ata.Device asks: the laws can hold, and the tests run.
use pingu_os.Common.{
  ℕ, zero, suc, ◌+◌, ◌*◌, ◌/◌, ◌%◌, ◌^◌, ◌≡◌, refl, sym, ap, ap₂, ◌∙◌, arith, true, false,
  Bool-cases, inl, inr, ◌&&◌, [], ◌∷◌, ◌++◌, ◌==◌, ==_iff, if◌then◌else◌, length, ◌-◌, replicate,
  append-nil,
}
use mathlib.Core.Path.{fun_ext}
use pingu_os.Common.Bytes.{Bytes}
use pingu_os.Port.{Ports}
use pingu_os.Drivers.Disk.{sector_size}
use pingu_os.Drivers.Disk.Mock.{pad, length-pad, pad_short}
use pingu_os.Drivers.Ata.{Ata, has_bits}
use pingu_os.Drivers.Ata.Device.{
  Phase, idle, sending, taking, DriveState, left, store, took, IsAta, drive_of, lba_of,
}

-- The numbers as bytes.
abbrev pub bytes_of : Bytes → Bytes
bytes_of [] = []
bytes_of (x ∷ l) = x % 2 ^ 8 ∷ bytes_of l

pub length-bytes_of : (l : Bytes) → length (bytes_of l) ≡ length l
length-bytes_of [] = refl
length-bytes_of (x ∷ l) = ap suc (length-bytes_of l)

bytes_of-append : (l m : Bytes) → bytes_of (l ++ m) ≡ bytes_of l ++ bytes_of m
bytes_of-append [] m = refl
bytes_of-append (x ∷ l) m = ap (λ r. x % 2 ^ 8 ∷ r) (bytes_of-append l m)

abbrev pub phase_of : Phase → Phase
phase_of idle = idle
phase_of (sending l) = sending (bytes_of l)
phase_of (taking d s l) = taking d s (bytes_of l)

abbrev pub seen : DriveState → DriveState
seen st = record st {
  phase = phase_of st.phase;
  sectors = λ d s. bytes_of (pad sector_size (st.sectors d s));
}

abbrev pub status_of : ℕ → Phase → ℕ
status_of (suc n) phase = 0x80
status_of zero idle = 0x50
status_of zero (sending l) = 0x58
status_of zero (taking d s l) = 0x58

abbrev pub less : ℕ → ℕ
less zero = zero
less (suc n) = n

abbrev pub word_of : Phase → ℕ
word_of (sending (lo ∷ hi ∷ l)) = lo % 2 ^ 8 + 2 ^ 8 * (hi % 2 ^ 8)
word_of phase = 0

abbrev pub rest_of : Phase → Phase
rest_of (sending (lo ∷ hi ∷ l)) = left l
rest_of phase = phase

abbrev pub take_word : DriveState → Phase → ℕ → DriveState
take_word st (taking d s got) v = took st d s (got ++ v % 2 ^ 8 ∷ v / 2 ^ 8 % 2 ^ 8 ∷ [])
take_word st idle v = st
take_word st (sending l) v = st

-- A command takes a while to answer.
abbrev command : DriveState → ℕ → DriveState
command st v =
    if v == 0x20
    then record st {
      phase = sending (pad sector_size (st.sectors (drive_of st) (lba_of st)));
      busy = 2;
    }
    else (if v == 0x30 then record st { phase = taking (drive_of st) (lba_of st) [] } else st)

abbrev pub controller : Ports DriveState
controller = record {
  read = λ st port.
      if port == 0x1F7
      then (status_of st.busy st.phase, record st { busy = less st.busy })
      else (if port == 0x1F0
          then (word_of st.phase, record st { phase = rest_of st.phase })
          else (0, st));
  write = λ st port v.
      if port == 0x1F0
      then take_word st st.phase v
      else (if port == 0x1F2
          then record st { count = v }
          else (if port == 0x1F3
              then record st { lba_lo = v }
              else (if port == 0x1F4
                  then record st { lba_mid = v }
                  else (if port == 0x1F5
                      then record st { lba_hi = v }
                      else (if port == 0x1F6
                          then record st { head = v }
                          else (if port == 0x1F7 then command st v else st))))));
}

abbrev pub primary_master : Ata
primary_master = record { port_base = 0x1F0; m_master = true }

pub says_busy :
    (st : DriveState) (b n : ℕ)
    → b ≡ suc n
    → (has_bits (status_of b st.phase) 0x80 ≡ true) × (less b ≡ n)
says_busy st zero n e = absurd (omega (arith, e))
says_busy st (suc b) n e = (refl, omega (arith, e))

pub says_ready :
    (ph : Phase) (b : ℕ) (bytes : Bytes)
    → b ≡ 0
    → phase_of ph ≡ sending bytes
    → (has_bits (status_of b ph) 0x80 ≡ false)
      × (has_bits (status_of b ph) 0x08 ≡ true)
      × (has_bits (status_of b ph) 0x01 ≡ false)
      × (less b ≡ b)
says_ready ph (suc b) bytes e h = absurd (omega (arith, e))
says_ready idle zero bytes e h = cc
says_ready (sending l) zero bytes e h = (refl, refl, refl, refl)
says_ready (taking d s l) zero bytes e h = cc

phase_of-left : (l : Bytes) → phase_of (left l) ≡ left (bytes_of l)
phase_of-left [] = refl
phase_of-left (x ∷ l) = refl

pub sends :
    (ph : Phase) (lo hi : ℕ) (bytes : Bytes)
    → phase_of ph ≡ sending (lo ∷ hi ∷ bytes)
    → (word_of ph % 2 ^ 8 ≡ lo)
      × (word_of ph / 2 ^ 8 % 2 ^ 8 ≡ hi)
      × (phase_of (rest_of ph) ≡ left bytes)
sends idle lo hi bytes h = cc
sends (taking d s l) lo hi bytes h = cc
sends (sending []) lo hi bytes h = cc
sends (sending (x ∷ [])) lo hi bytes h = cc
sends (sending (x ∷ y ∷ l)) lo hi bytes h =
    let low : x % 2 ^ 8 ≡ lo = cc in
    let high : y % 2 ^ 8 ≡ hi = cc in
    let rest : bytes_of l ≡ bytes = cc in
    (omega (arith, low), omega (arith, high), phase_of-left l ∙ ap left rest)

whole_sector : (l : Bytes) → length l ≡ sector_size → pad sector_size l ≡ l
whole_sector l full =
    let none_left : sector_size - length l ≡ 0 = omega (arith, full) in
    pad_short sector_size l (omega (arith, full))
    ∙ ap (λ n. l ++ replicate n 0) none_left
    ∙ append-nil l

seen-store :
    (sectors : ℕ → ℕ → Bytes) (d s : ℕ) (l : Bytes) (d' s' : ℕ)
    → length l ≡ sector_size
    → bytes_of (pad sector_size (store sectors d s l d' s'))
      ≡ store (λ e t. bytes_of (pad sector_size (sectors e t))) d s (bytes_of l) d' s'
seen-store sectors d s l d' s' full = elim (Bool-cases ((d' == d) && (s' == s))) [
  | inl here ↦ rw here (ap bytes_of (whole_sector l full))
  | inr there ↦ rw there refl
]

seen-took :
    (st : DriveState) (d s : ℕ) (l : Bytes) → seen (took st d s l) ≡ took (seen st) d s (bytes_of l)
seen-took st d s l = elim (Bool-cases (length l == sector_size)) [
  | inl full ↦
      let size : length l ≡ sector_size = (==_iff (length l) sector_size).0 full in
      let full' : (length (bytes_of l) == sector_size) ≡ true =
        (==_iff (length (bytes_of l)) sector_size).1 (length-bytes_of l ∙ size) in
      let sectors =
        fun_ext (λ (d' : ℕ). fun_ext (λ (s' : ℕ). seen-store st.sectors d s l d' s' size)) in
      ap
        (λ b. seen (
          if b
          then record st { phase = idle; sectors = store st.sectors d s l }
          else record st { phase = taking d s l }))
        full
      ∙ ap (λ (f : ℕ → ℕ → Bytes). record st { phase = idle; sectors = f }) sectors
      ∙ ap
          (λ b.
            if b
            then record (seen st) {
              phase = idle;
              sectors = store (seen st).sectors d s (bytes_of l);
            }
            else record (seen st) { phase = taking d s (bytes_of l) })
          (sym full')
  | inr part ↦
      let part' : (length (bytes_of l) == sector_size) ≡ false =
        ap (λ n. n == sector_size) (length-bytes_of l) ∙ part in
      ap
        (λ b. seen (
          if b
          then record st { phase = idle; sectors = store st.sectors d s l }
          else record st { phase = taking d s l }))
        part
      ∙ ap
          (λ b.
            if b
            then record (seen st) {
              phase = idle;
              sectors = store (seen st).sectors d s (bytes_of l);
            }
            else record (seen st) { phase = taking d s (bytes_of l) })
          (sym part')
]

pub takes :
    (st : DriveState) (ph : Phase) (v d s : ℕ) (bytes : Bytes)
    → phase_of ph ≡ taking d s bytes
    → seen (take_word st ph v) ≡ took (seen st) d s (bytes ++ v % 2 ^ 8 ∷ v / 2 ^ 8 % 2 ^ 8 ∷ [])
takes st idle v d s bytes h = cc
takes st (sending l) v d s bytes h = cc
takes st (taking d' s' l) v d s bytes h =
    let word = v % 2 ^ 8 ∷ v / 2 ^ 8 % 2 ^ 8 ∷ [] in
    let same : bytes_of word ≡ word = ap₂ (λ (x y : ℕ). x ∷ y ∷ []) (omega arith) (omega arith) in
    let drive : d' ≡ d = cc in
    let sector : s' ≡ s = cc in
    let got : bytes_of l ≡ bytes = cc in
    seen-took st d' s' (l ++ word)
    ∙ ap₂ (λ e t. took (seen st) e t (bytes_of (l ++ word))) drive sector
    ∙ ap (took (seen st) d s) (bytes_of-append l word ∙ ap₂ (λ x y. x ++ y) got same)

unfoldable pub controller-IsAta : (count : ℕ) → IsAta controller primary_master count 2
controller-IsAta count = record {
  view = seen;
  full_sector = λ p d s.
      length-bytes_of (pad sector_size (p.sectors d s)) ∙ length-pad sector_size (p.sectors d s);
  writes_head = λ p v r. refl;
  writes_features = λ p v r. refl;
  writes_count = λ p v r. refl;
  writes_lo = λ p v r. refl;
  writes_mid = λ p v r. refl;
  writes_hi = λ p v r. refl;
  reads_sector = λ p r one there. (2, omega arith, refl);
  writes_sector = λ p r one there. refl;
  says_busy =
      λ p n e. let s = says_busy p p.busy n e in (s.0, ap (λ b. record (seen p) { busy = b }) s.1);
  says_ready = λ p bytes e h.
      let s = says_ready p.phase p.busy bytes e h in
      (s.0, s.1, s.2, ap (λ b. record (seen p) { busy = b }) s.3);
  sends = λ p lo hi bytes e h.
      let s = sends p.phase lo hi bytes h in
      (s.0, s.1, ap (λ ph. record (seen p) { phase = ph }) s.2);
  takes = λ p v d s bytes e h. takes p p.phase v d s bytes h;
  keeps_control = λ p. refl;
  keeps_slave_pic = λ p. refl;
  keeps_master_pic = λ p. refl;
}
