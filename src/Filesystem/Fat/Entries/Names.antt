-- ===== src/Filesystem/Fat/Entries/Names.antt =====
-- The short names that `create_directory_entry` makes fill their eleven bytes.
use pingu_os.Common.{
  ℕ, suc, ◌+◌, ◌-◌, ◌≤◌, ◌<◌, ◌≡◌, inl, inr, refl, ap, ◌∙◌, arith, Bool, true, false, Bool-cases,
  Option, none, some, [], ◌∷◌, ◌++◌, ◌==◌, ltb, if◌then◌else◌, length, take, drop, replicate,
  length-take, length-append, length-replicate,
}
use pingu_os.Common.Bytes.{Bytes}
use pingu_os.PathUtils.{strlen, get_index, get_index_from, dot}
use pingu_os.Filesystem.Fat.Clusters.{lesser}
use pingu_os.Filesystem.Fat.Entries.{padded, short_name, short_name_at}

abbrev Below : Option ℕ → ℕ → Type 0
Below none n = Unit {0}
Below (some k) n = k < n

Below-if :
    (b : Bool) (i n : ℕ) (found : Option ℕ)
    → i < n
    → Below found n
    → Below (if b then some i else found) n
Below-if true i n found h rest = h
Below-if false i n found h rest = rest

index_lt :
    (i : ℕ) (found : Option ℕ) (cs : Bytes) (target n : ℕ)
    → Below found n
    → i + length cs ≤ n
    → Below (get_index_from i found cs target) n
unfolding get_index_from
index_lt i found [] target n before room = before
index_lt i found (c ∷ cs) target n before room =
    index_lt (i + 1) (if c == target then some i else found) cs target n
      (Below-if (c == target) i n found (omega (arith, room)) before) (omega (arith, room))

lesser_le : (a b : ℕ) → (lesser a b ≤ a) × (lesser a b ≤ b)
lesser_le a b = elim (Bool-cases (ltb b a)) [
  | inl less ↦ rw less (ltb_le b a less, omega arith)
  | inr more ↦ rw more (omega arith, ltb_ge b a more)
]
  where
    ltb_le : (b a : ℕ) → ltb b a ≡ true → b ≤ a
    ltb_le b a h = ground arith

    ltb_ge : (b a : ℕ) → ltb b a ≡ false → a ≤ b
    ltb_ge b a h = ground arith

length-strlen : (name : Bytes) → strlen name ≡ length name
unfolding strlen
length-strlen [] = refl
length-strlen (c ∷ name) = ap suc (length-strlen name)

length-padded :
    (name ext : Bytes) (n : ℕ)
    → n ≤ 8
    → n ≤ length name
    → length ext ≤ 3
    → length (padded name n ext) ≡ 11
length-padded name ext n short there small =
    let blanks : Bytes = replicate (11 - n) b' ' in
    let head = take n name ++ blanks in
    let spaces : length blanks ≡ 11 - n = length-replicate {A = ℕ} (11 - n) b' ' in
    let full : length head ≡ 11 =
      length-append (take n name) blanks
      ∙ omega (arith, length-take n name, spaces, there, short) in
    length-append (take (11 - length ext) head) ext
    ∙ omega (arith, length-take (11 - length ext) head, full, small)

length-short_name_at :
    (name : Bytes) (o : Option ℕ) → Below o (length name) → length (short_name_at name o) ≡ 11
unfolding short_name_at
length-short_name_at name none h =
    let n = lesser_le 8 (strlen name) in
    length-padded name [] (lesser 8 (strlen name)) n.0 (omega (arith, n.1, length-strlen name))
      (omega arith)
length-short_name_at name (some k) h =
    let n = lesser_le 8 k in
    let m = lesser_le 3 (strlen name - k) in
    let tail = drop (k + 1) name ++ 0 ∷ [] in
    let ext = take (lesser 3 (strlen name - k)) tail in
    length-padded name ext (lesser 8 k) n.0 (omega (arith, n.1, h))
      (omega (arith, m.0, length-take (lesser 3 (strlen name - k)) tail))

pub length-short_name : (name : Bytes) → length (short_name name) ≡ 11
unfolding short_name get_index
length-short_name name =
    length-short_name_at name (get_index_from 0 none name dot)
      (index_lt 0 none name dot (length name) tt (omega arith))
