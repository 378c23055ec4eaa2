-- ===== src/Drivers/Disk/Mock.antt =====
-- A disk in memory, like the one of tests/unit/filesystem/mock_ata.hpp: it shows that the laws of
-- a disk can hold, and the examples run on it.
use pingu_os.Common.{
  ℕ, zero, suc, ◌-◌, ◌≤◌, ◌≡◌, ◌≢◌, refl, ◌∙◌, ap, arith, [], ◌∷◌, ◌++◌, length, take, replicate,
  if◌then◌else◌, ◌==◌, ==-refl, false,
}
use pingu_os.Common.Bytes.{Bytes}
use pingu_os.Drivers.Disk.{Disk, IsDisk, success, sector_size}

-- The first `n` bytes, zeros where there are too few.
unfoldable pub pad : ℕ → Bytes → Bytes
pad zero b = []
pad (suc n) [] = 0 ∷ pad n []
pad (suc n) (x ∷ b) = x ∷ pad n b

abbrev pub MockAta : Type 0
MockAta = ℕ → Bytes

abbrev pub mock_ata : Disk MockAta
mock_ata = record {
  read_28 = λ d s n. (success, take n (pad sector_size (d s)));
  write_28 = λ d s bytes. (success, λ t. if s == t then bytes else d t);
}

pub length-pad : (n : ℕ) (b : Bytes) → length (pad n b) ≡ n
unfolding pad
length-pad zero b = refl
length-pad (suc n) [] = ap suc (length-pad n [])
length-pad (suc n) (x ∷ b) = ap suc (length-pad n b)

pad_empty : (n : ℕ) → pad n [] ≡ replicate n 0
unfolding pad
pad_empty zero = refl
pad_empty (suc n) = ap (λ l. 0 ∷ l) (pad_empty n)

pub pad_short : (n : ℕ) (b : Bytes) → length b ≤ n → pad n b ≡ b ++ replicate (n - length b) 0
unfolding pad
pad_short n [] h = pad_empty n ∙ ap (λ k. replicate k 0) (omega arith)
pad_short zero (x ∷ b) h = absurd (omega (arith, h))
pad_short (suc n) (x ∷ b) h =
    ap (λ l. x ∷ l) (pad_short n b (omega (arith, h)))
    ∙ ap (λ k. x ∷ (b ++ replicate k 0)) (omega arith)

pub keep :
    (d : MockAta) (s t : ℕ) (bytes : Bytes)
    → s ≢ t
    → pad sector_size (if s == t then bytes else d t) ≡ pad sector_size (d t)
keep d s t bytes ne = let differ : (s == t) ≡ false = ground arith in rw differ refl

-- It is a disk of any number of sectors.
unfoldable pub mock_ata-IsDisk : (count : ℕ) → IsDisk mock_ata count
mock_ata-IsDisk count = record {
  sector = λ d s. pad sector_size (d s);
  full_sector = λ d s. length-pad sector_size (d s);
  reads = λ d s n at h. refl;
  writes = λ d s bytes at h. rw (==-refl s) (pad_short sector_size bytes h);
  keeps = λ d s t bytes at h ne. keep d s t bytes ne;
}
