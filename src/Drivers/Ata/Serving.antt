-- ===== src/Drivers/Ata/Serving.antt =====
-- The driver of src/drivers/ata.cpp under the interface of include/drivers/disk.h: what a client of
-- the interface gets from a row of requests.
use pingu_os.Common.{
  ℕ, ◌-◌, ◌^◌, ◌≤◌, ◌<◌, ◌≡◌, refl, sym, ap, ◌∙◌, arith, Bool, true, false, ◌&&◌, Option, some,
  ◌>>=◌, List, [], ◌∷◌, ◌++◌, ◌==◌, ==-refl, if◌then◌else◌, length, replicate,
}
use pingu_os.Common.Bytes.{Bytes}
use pingu_os.Port.{Ports}
use pingu_os.Drivers.Disk.{Disk, DiskErr, sector_size}
use pingu_os.Drivers.Disk.Mock.{MockAta, mock_ata, pad, pad_short}
use pingu_os.Drivers.Ata.{Ata, read_28, write_28}
use pingu_os.Drivers.Ata.Device.{AtRest, IsAta, store}
use pingu_os.Drivers.Ata.Registers.{drive}
use pingu_os.Drivers.Ata.Reading.{read_28-reads}
use pingu_os.Drivers.Ata.Writing.{AllBytes, write_28-stores}

pub data Request : Type 0 where
  reading : ℕ → ℕ → Request
  writing : ℕ → Bytes → Request

-- The answers, each an error and the bytes read, and the disk afterwards, over the interface.
abbrev pub serve : {D : Type 0} → Disk D → D → List Request → List (DiskErr × Bytes) × D
serve dev d [] = ([], d)
serve dev d (reading sector n ∷ requests) =
    let (answers, d') = serve dev d requests in (dev.read_28 d sector n ∷ answers, d')
serve dev d (writing sector bytes ∷ requests) =
    let (err, d') = dev.write_28 d sector bytes in
    let (answers, d'') = serve dev d' requests in ((err, []) ∷ answers, d'')

-- The same by the driver of a drive, on `fuel` for each loop over its status.
abbrev pub drive_serve :
    {P : Type 0} → Ports P → Ata → ℕ → P → List Request → Option (List (DiskErr × Bytes) × P)
drive_serve io a fuel p [] = some ([], p)
drive_serve io a fuel p (reading sector n ∷ requests) = read_28 io a fuel p sector n >>= λ o.
    drive_serve io a fuel o.ports requests >>= λ (answers, p').
    some ((o.err, o.bytes) ∷ answers, p')
drive_serve io a fuel p (writing sector bytes ∷ requests) =
    let o = write_28 io a p sector bytes in
    drive_serve io a fuel o.ports requests >>= λ (answers, p'). some ((o.err, []) ∷ answers, p')

-- Requests of up to a sector, for sectors that the drive has.
abbrev pub AllServed : ℕ → List Request → Type 0
AllServed count [] = Unit {0}
AllServed count (reading sector n ∷ requests) =
    (sector < count) × (n ≤ sector_size) × AllServed count requests
AllServed count (writing sector bytes ∷ requests) =
    (sector < count) × (length bytes ≤ sector_size) × AllBytes bytes × AllServed count requests

module _ {P : Type 0} {io : Ports P} {a : Ata} {count delay : ℕ}
    (ata : IsAta io a count delay) where
  open ata use {view}

  -- A drive at rest that holds a disk.
  pub record Shows (p : P) (d : MockAta) : Type 0 where
    pub rests : AtRest (view p)
    pub holds : (s : ℕ) → (view p).sectors (drive a.m_master) s ≡ pad sector_size (d s)

  stored_lem :
      (sectors : ℕ → ℕ → Bytes) (d : MockAta) (which sector s : ℕ) (bytes : Bytes)
      → ((t : ℕ) → sectors which t ≡ pad sector_size (d t))
      → length bytes ≤ sector_size
      → store sectors which sector (bytes ++ replicate (sector_size - length bytes) 0) which s
        ≡ pad sector_size ((mock_ata.write_28 d sector bytes).1 s)
  stored_lem sectors d which sector s bytes same short =
      let turn : (s == sector) ≡ (sector == s) = ground arith in
      rw (==-refl which, turn) (either (sector == s) (same s))
    where
      either :
          (b : Bool) {old : Bytes}
          → old ≡ pad sector_size (d s)
          → (if true && b then bytes ++ replicate (sector_size - length bytes) 0 else old)
            ≡ pad sector_size (if b then bytes else d s)
      either true e = sym (pad_short sector_size bytes short)
      either false e = e

  -- A drive that holds a disk answers a row of requests as the disk does, and then holds the disk that
  -- they leave: no request fails. The requests are for up to a sector, of the sectors that the drive
  -- has, at most 2^28, and the drive is busy with a command for less than `fuel` reads of its status.
  pub drive_serve-serves :
      (fuel : ℕ) (p : P) (d : MockAta) (requests : List Request)
      → count ≤ 2 ^ 28
      → delay < fuel
      → Shows p d
      → AllServed count requests
      → let (answers, d') = serve mock_ata d requests in
        (p' : P) × (drive_serve io a fuel p requests ≡ some (answers, p')) × Shows p' d'
  drive_serve-serves fuel p d [] limit enough shows all = (p, refl, shows)
  drive_serve-serves fuel p d (reading sector n ∷ requests) limit enough shows (there, short, all) =
      let (o, got, err, bytes, rest, same) =
        read_28-reads ata fuel p sector n shows.rests (omega (arith, there, limit)) there short
          enough in
      let next : Shows o.ports d = record {
        rests = rest;
        holds = λ s. ap (λ f. f (drive a.m_master) s) same ∙ shows.holds s;
      } in
      let (p', served, shows') = drive_serve-serves fuel o.ports d requests limit enough next all in
      (p', rw (got, served, err, bytes, shows.holds sector) refl, shows')
  drive_serve-serves fuel p d (writing sector bytes ∷ requests) limit enough shows
        (there, short, octets, all) =
      let o = write_28 io a p sector bytes in
      let (err, rest, same) =
        write_28-stores ata p sector bytes shows.rests (omega (arith, there, limit)) there short
          octets in
      let d1 = (mock_ata.write_28 d sector bytes).1 in
      let next : Shows o.ports d1 = record {
        rests = rest;
        holds = λ s.
            ap (λ f. f (drive a.m_master) s) same
            ∙ stored_lem (view p).sectors d (drive a.m_master) sector s bytes shows.holds short;
      } in
      let (p', served, shows') =
        drive_serve-serves fuel o.ports d1 requests limit enough next all in
      (p', rw (served, err) refl, shows')
