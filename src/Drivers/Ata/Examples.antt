-- ===== src/Drivers/Ata/Examples.antt =====
-- Tests: a sector is written and read.
use pingu_os.Common.{List, ◌-◌, ◌≡◌, refl, arith, true, some, [], ◌∷◌, replicate}
use pingu_os.Drivers.Disk.{success, sector_size}
use pingu_os.Drivers.Ata.{write_28}
use pingu_os.Drivers.Ata.Device.{DriveState, IsAta, AtRest, idle, store}
use pingu_os.Drivers.Ata.Registers.{drive}
use pingu_os.Drivers.Ata.Serving.{
  Request, reading, writing, serve, drive_serve, Shows, drive_serve-serves,
}
use pingu_os.Drivers.Disk.Mock.{MockAta, mock_ata, pad}
use pingu_os.Drivers.Ata.Writing.{write_28-stores}
use pingu_os.Drivers.Ata.Controller.{controller, primary_master, controller-IsAta}

abbrev fresh : DriveState
fresh = record {
  head = 0;
  count = 0;
  lba_lo = 0;
  lba_mid = 0;
  lba_hi = 0;
  phase = idle;
  busy = 0;
  sectors = λ d s. 0xEB ∷ 0x58 ∷ 0x90 ∷ [];
}

abbrev ata : IsAta controller primary_master 100000 2
ata = controller-IsAta 100000

fresh-AtRest : AtRest (ata.view fresh)
unfolding controller-IsAta
fresh-AtRest = record { is_idle = refl; not_busy = refl }

write_28-stores_example :
    let o = write_28 controller primary_master fresh 70000 (1 ∷ 2 ∷ 3 ∷ []) in
    (o.err ≡ success)
    × AtRest (ata.view o.ports)
    × ((ata.view o.ports).sectors
        ≡ store
            (ata.view fresh).sectors
            (drive true)
            70000
            (1 ∷ 2 ∷ 3 ∷ replicate (sector_size - 3) 0))
write_28-stores_example =
    write_28-stores ata fresh 70000 (1 ∷ 2 ∷ 3 ∷ []) fresh-AtRest (omega arith) (omega arith)
      (omega arith) (omega arith)

-- A disk whose sectors begin with the same three bytes.
abbrev same_disk : MockAta
same_disk t = 0xEB ∷ 0x58 ∷ 0x90 ∷ []

fresh-Shows : Shows ata fresh same_disk
unfolding controller-IsAta pad
fresh-Shows = record { rests = fresh-AtRest; holds = λ s. refl }

abbrev requests : List Request
requests = reading 5 3 ∷ writing 5 (7 ∷ 8 ∷ []) ∷ reading 5 3 ∷ reading 6 2 ∷ []

drive_serve-serves_example :
    let (answers, d') = serve mock_ata same_disk requests in
    (p' : DriveState) × (drive_serve controller primary_master 3 fresh requests
      ≡ some (answers, p'))
    × Shows ata p' d'
drive_serve-serves_example =
    drive_serve-serves ata 3 fresh same_disk requests (omega arith) (omega arith) fresh-Shows (
      omega arith,
      omega arith,
      (
        omega arith,
        omega arith,
        (omega arith, (omega arith, tt)),
        (omega arith, omega arith, (omega arith, omega arith, tt)),
      ),
    )
