-- ===== src/Filesystem/Fat/Entries/Layout.antt =====
-- How an entry lies in its 32 bytes, and in the buffer of a cluster.
use pingu_os.Common.{
  ℕ, ◌+◌, ◌*◌, ◌/◌, ◌%◌, ◌^◌, ◌<◌, ◌≡◌, sym, ap, ◌∙◌, arith, ◌++◌, length, get_or,
  get_or-append_right, take-append,
}
use pingu_os.Common.Bytes.{Bytes, get_u16, get_u32}
use pingu_os.Filesystem.Fat.{DirectoryEntryFat32, parse_entry, entry_bytes, entry_fields}

-- Eleven characters, and numbers that fit their fields.
pub record Fits (e : DirectoryEntryFat32) : Type 0 where
  pub name : length e.name ≡ 11
  pub c_time : e.c_time < 2 ^ 16
  pub c_date : e.c_date < 2 ^ 16
  pub a_time : e.a_time < 2 ^ 16
  pub first_cluster_hi : e.first_cluster_hi < 2 ^ 16
  pub w_time : e.w_time < 2 ^ 16
  pub w_date : e.w_date < 2 ^ 16
  pub first_cluster_lo : e.first_cluster_lo < 2 ^ 16
  pub size : e.size < 2 ^ 32

behind : (xs ys : Bytes) (k : ℕ) → length xs ≡ 11 → get_or (xs ++ ys) (11 + k) 0 ≡ get_or ys k 0
behind xs ys k h = ap (λ n. get_or (xs ++ ys) (n + k) 0) (sym h) ∙ get_or-append_right xs ys k 0

word_behind : (xs ys : Bytes) (k : ℕ) → length xs ≡ 11 → get_u16 (xs ++ ys) (11 + k) ≡ get_u16 ys k
unfolding get_u16
word_behind xs ys k h =
    let next : 11 + k + 1 ≡ 11 + (k + 1) = omega arith in
    rw (next, behind xs ys k h, behind xs ys (k + 1) h)

dword_behind : (xs ys : Bytes) (k : ℕ) → length xs ≡ 11 → get_u32 (xs ++ ys) (11 + k) ≡ get_u32 ys k
unfolding get_u32
dword_behind xs ys k h =
    let one : 11 + k + 1 ≡ 11 + (k + 1) = omega arith in
    let two : 11 + k + 2 ≡ 11 + (k + 2) = omega arith in
    let three : 11 + k + 3 ≡ 11 + (k + 3) = omega arith in
    rw (
      one,
      two,
      three,
      behind xs ys k h,
      behind xs ys (k + 1) h,
      behind xs ys (k + 2) h,
      behind xs ys (k + 3) h,
    )

-- The structure with a name and the fields that bytes hold.
abbrev pub rebuilt : Bytes → Bytes → DirectoryEntryFat32
rebuilt xs r = record {
  name = xs;
  attributes = get_or r 0 0;
  reserved = get_or r 1 0;
  c_tenth_time = get_or r 2 0;
  c_time = get_u16 r 3;
  c_date = get_u16 r 5;
  a_time = get_u16 r 7;
  first_cluster_hi = get_u16 r 9;
  w_time = get_u16 r 11;
  w_date = get_u16 r 13;
  first_cluster_lo = get_u16 r 15;
  size = get_u32 r 17;
}

parsed : (xs r : Bytes) → length xs ≡ 11 → parse_entry (xs ++ r) ≡ rebuilt xs r
unfolding parse_entry
parsed xs r h = rw (
  take-append 11 xs r h,
  behind xs r 0 h,
  behind xs r 1 h,
  behind xs r 2 h,
  word_behind xs r 3 h,
  word_behind xs r 5 h,
  word_behind xs r 7 h,
  word_behind xs r 9 h,
  word_behind xs r 11 h,
  word_behind xs r 13 h,
  word_behind xs r 15 h,
  dword_behind xs r 17 h,
)

word : (v : ℕ) → v < 2 ^ 16 → v % 2 ^ 8 + 2 ^ 8 * (v / 2 ^ 8 % 2 ^ 8) ≡ v
word v h = omega (arith, h)

dword :
    (v : ℕ)
    → v < 2 ^ 32
    → v % 2 ^ 8
        + 2 ^ 8 * (v / 2 ^ 8 % 2 ^ 8)
        + 2 ^ 16 * (v / 2 ^ 16 % 2 ^ 8)
        + 2 ^ 24 * (v / 2 ^ 24 % 2 ^ 8)
      ≡ v
dword v h = omega (arith, h)

rebuilt_lem : (e : DirectoryEntryFat32) → Fits e → rebuilt e.name (entry_fields e) ≡ e
unfolding get_u16 get_u32
rebuilt_lem e f = rw (
  word e.c_time f.c_time,
  word e.c_date f.c_date,
  word e.a_time f.a_time,
  word e.first_cluster_hi f.first_cluster_hi,
  word e.w_time f.w_time,
  word e.w_date f.w_date,
  word e.first_cluster_lo f.first_cluster_lo,
  dword e.size f.size,
)

-- The fields of an entry are read from its bytes as they were stored, for a name of eleven
-- characters and numbers that fit their fields.
pub parse_entry-entry_bytes : (e : DirectoryEntryFat32) → Fits e → parse_entry (entry_bytes e) ≡ e
unfolding entry_bytes
parse_entry-entry_bytes e f = parsed e.name (entry_fields e) f.name ∙ rebuilt_lem e f
