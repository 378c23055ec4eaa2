-- ===== src/Filesystem/Fat/Entries/Slots.antt =====
-- What `create_directory_entry` stores in the buffer of a cluster.
use Prim.Native.Nat.{bit_or}
use pingu_os.Common.{
  ℕ, zero, suc, ◌+◌, ◌*◌, ◌-◌, ◌/◌, ◌%◌, ◌^◌, ◌≤◌, ◌<◌, ◌≡◌, ◌≢◌, inl, inr, refl, sym, ap, ap₂, ◌∙◌,
  arith, Bool-cases, [], ◌∷◌, ◌++◌, ltb, length, take, drop, get_or, length-take, length-drop,
  length-append, take-append, take-append_left, drop-append_right, drop-append_left, take-drop-take,
  drop_add,
}
use pingu_os.Common.Bytes.{Bytes, fill, fill_at, get_u16}
use pingu_os.Common.Bits.{bit_or-disjoint}
use pingu_os.Filesystem.{FileEntry}
use pingu_os.Filesystem.Fat.{DirectoryEntryFat32, parse_entry, entry_bytes, dir_entry_size}
use pingu_os.Filesystem.Fat.Directory.{entry_at}
use pingu_os.Filesystem.Fat.Entries.{short_name, fill_slot, entry_cluster}
use pingu_os.Filesystem.Fat.Entries.Names.{length-short_name}
use pingu_os.Filesystem.Fat.Entries.Layout.{Fits, parse_entry-entry_bytes}

-- Every element is a byte.
abbrev pub AreBytes : Bytes → Type 0
AreBytes l = (i : ℕ) → get_or l i 0 < 256

take-AreBytes : (n : ℕ) (l : Bytes) → AreBytes l → AreBytes (take n l)
take-AreBytes zero l h i = omega arith
take-AreBytes (suc n) [] h i = omega arith
take-AreBytes (suc n) (x ∷ l) h zero = h zero
take-AreBytes (suc n) (x ∷ l) h (suc i) = take-AreBytes n l (λ k. h (suc k)) i

drop-AreBytes : (n : ℕ) (l : Bytes) → AreBytes l → AreBytes (drop n l)
drop-AreBytes zero l h i = h i
drop-AreBytes (suc n) [] h i = omega arith
drop-AreBytes (suc n) (x ∷ l) h i = drop-AreBytes n l (λ k. h (suc k)) i

word_lt : (l : Bytes) (i : ℕ) → AreBytes l → get_u16 l i < 2 ^ 16
unfolding get_u16
word_lt l i h = omega (arith, h i, h (i + 1))

-- Storing 32 bytes at slot `i` replaces the slot and no other.
slot_same :
    (buf bytes : Bytes) (i : ℕ)
    → length bytes ≡ 32
    → 32 * i ≤ length buf
    → take 32 (drop (32 * i) (fill_at buf (32 * i) bytes)) ≡ bytes
unfolding fill_at fill
slot_same buf bytes i size room =
    let front : length (take (32 * i) buf) ≡ 32 * i =
      length-take (32 * i) buf ∙ omega (arith, room) in
    let rest = drop (length bytes) (drop (32 * i) buf) in
    let none_left : 32 * i - length (take (32 * i) buf) ≡ 0 = omega (arith, front) in
    ap (take 32) (
      drop-append_right (32 * i) (take (32 * i) buf) (bytes ++ rest) (omega (arith, front))
      ∙ ap (λ n. drop n (bytes ++ rest)) none_left)
    ∙ take-append 32 bytes rest size

slot_other :
    (buf bytes : Bytes) (i j : ℕ)
    → length bytes ≡ 32
    → 32 * i ≤ length buf
    → i ≢ j
    → take 32 (drop (32 * j) (fill_at buf (32 * i) bytes)) ≡ take 32 (drop (32 * j) buf)
unfolding fill_at fill
slot_other buf bytes i j size room apart =
    let front : length (take (32 * i) buf) ≡ 32 * i =
      length-take (32 * i) buf ∙ omega (arith, room) in
    let rest = drop (length bytes) (drop (32 * i) buf) in
    elim (Bool-cases (ltb j i)) [
      | inl before ↦
          let below : j < i = ground arith in
          let part : 32 ≤ length (drop (32 * j) (take (32 * i) buf)) =
            omega (arith, length-drop (32 * j) (take (32 * i) buf), front, below) in
          ap (take 32) (
            drop-append_left (32 * j) (take (32 * i) buf) (bytes ++ rest)
              (omega (arith, front, below)))
          ∙ take-append_left 32 (drop (32 * j) (take (32 * i) buf)) (bytes ++ rest) part
          ∙ take-drop-take 32 (32 * j) (32 * i) buf (omega (arith, below))
      | inr behind ↦
          let above : i < j = ground arith in
          let past_front : 32 * j - length (take (32 * i) buf) ≡ 32 * j - 32 * i =
            omega (arith, front) in
          let past_bytes : 32 * i + (32 + (32 * j - 32 * i - 32)) ≡ 32 * j = omega (arith, above) in
          let less : 32 * j - 32 * i - length bytes ≡ 32 * j - 32 * i - 32 = omega (arith, size) in
          ap (take 32) (
            drop-append_right (32 * j) (take (32 * i) buf) (bytes ++ rest)
              (omega (arith, front, above))
            ∙ ap (λ n. drop n (bytes ++ rest)) past_front
            ∙ drop-append_right (32 * j - 32 * i) bytes rest (omega (arith, size, above))
            ∙ ap₂ (λ n m. drop n (drop m (drop (32 * i) buf))) less size
            ∙ sym (drop_add 32 (32 * j - 32 * i - 32) (drop (32 * i) buf))
            ∙ sym (drop_add (32 * i) (32 + (32 * j - 32 * i - 32)) buf)
            ∙ ap (λ n. drop n buf) past_bytes)
    ]

-- The entry that the source stores for a new file: the fields that it sets, over what was there.
abbrev pub entry_for : DirectoryEntryFat32 → FileEntry → DirectoryEntryFat32
entry_for old new_entry = record old {
  name = short_name new_entry.name;
  attributes = new_entry.attributes;
  size = new_entry.size;
  first_cluster_hi = new_entry.first_cluster / 2 ^ 16 % 2 ^ 16;
  first_cluster_lo = new_entry.first_cluster % 2 ^ 16;
}

entry_for-Fits :
    (buf : Bytes) (i : ℕ) (new_entry : FileEntry)
    → AreBytes buf
    → new_entry.size < 2 ^ 32
    → Fits (entry_for (entry_at buf i) new_entry)
unfolding entry_at parse_entry
entry_for-Fits buf i new_entry bytes word =
    let slot = take 32 (drop (32 * i) buf) in
    let all = take-AreBytes 32 (drop (32 * i) buf) (drop-AreBytes (32 * i) buf bytes) in
    record {
      name = length-short_name new_entry.name;
      c_time = word_lt slot 14 all;
      c_date = word_lt slot 16 all;
      a_time = word_lt slot 18 all;
      first_cluster_hi = omega arith;
      w_time = word_lt slot 22 all;
      w_date = word_lt slot 24 all;
      first_cluster_lo = omega arith;
      size = word;
    }

length-entry_bytes : (e : DirectoryEntryFat32) → length e.name ≡ 11 → length (entry_bytes e) ≡ 32
unfolding entry_bytes
length-entry_bytes e h = length-append e.name _ ∙ omega (arith, h)

stored :
    (buf : Bytes) (i : ℕ) (e : DirectoryEntryFat32)
    → Fits e
    → 32 * i ≤ length buf
    → (entry_at (fill_at buf (32 * i) (entry_bytes e)) i ≡ e)
      × ((j : ℕ) → i ≢ j → entry_at (fill_at buf (32 * i) (entry_bytes e)) j ≡ entry_at buf j)
unfolding entry_at
stored buf i e fits room =
    let size = length-entry_bytes e fits.name in
    (
      ap parse_entry (slot_same buf (entry_bytes e) i size room) ∙ parse_entry-entry_bytes e fits,
      λ j apart. ap parse_entry (slot_other buf (entry_bytes e) i j size room apart),
    )

cluster_halves :
    (e : DirectoryEntryFat32) (c : ℕ)
    → e.first_cluster_hi ≡ c / 2 ^ 16 % 2 ^ 16
    → e.first_cluster_lo ≡ c % 2 ^ 16
    → c < 2 ^ 32
    → entry_cluster e ≡ c
unfolding entry_cluster
cluster_halves e c hi lo word =
    ap₂ (λ a b. bit_or (2 ^ 16 * a) b) hi lo
    ∙ bit_or-disjoint 16 (c / 2 ^ 16 % 2 ^ 16) (c % 2 ^ 16) (omega arith)
    ∙ omega (arith, word)

-- In a buffer of bytes that has the slot, the slot of a new file is read back as the entry for the
-- file: its short name, attributes and size, and its first cluster, which the search by first
-- cluster compares with. No other slot changes. Size and first cluster have 32 bits.
pub entry_at-fill_slot :
    (buf : Bytes) (i : ℕ) (new_entry : FileEntry)
    → AreBytes buf
    → dir_entry_size * i ≤ length buf
    → new_entry.size < 2 ^ 32
    → new_entry.first_cluster < 2 ^ 32
    → let buf' = fill_slot buf i new_entry in
      (entry_at buf' i ≡ entry_for (entry_at buf i) new_entry)
      × (entry_cluster (entry_at buf' i) ≡ new_entry.first_cluster)
      × ((j : ℕ) → i ≢ j → entry_at buf' j ≡ entry_at buf j)
unfolding fill_slot
entry_at-fill_slot buf i new_entry bytes room word cluster =
    let e = entry_for (entry_at buf i) new_entry in
    let s = stored buf i e (entry_for-Fits buf i new_entry bytes word) room in
    (s.0, ap entry_cluster s.0 ∙ cluster_halves e new_entry.first_cluster refl refl cluster, s.1)
