-- ===== src/PathUtils/Examples.antt =====
-- Tests: strings and paths.
use pingu_os.Common.{◌≡◌, refl, arith, [], ◌∷◌, some}
use pingu_os.Common.Bytes.{Bytes}
use pingu_os.PathUtils.{split_path}
use pingu_os.PathUtils.Split.{IsComponent, join, split_path-join}

abbrev home : Bytes
home = b'h' ∷ b'o' ∷ b'm' ∷ b'e' ∷ []

abbrev notes : Bytes
notes = b'n' ∷ b'.' ∷ b't' ∷ []

home-IsComponent : IsComponent home
home-IsComponent = record {
  some_chars = refl;
  short = omega arith;
  plain = (refl, (refl, (refl, (refl, tt))));
}

notes-IsComponent : IsComponent notes
notes-IsComponent = record {
  some_chars = refl;
  short = omega arith;
  plain = (refl, (refl, (refl, tt)));
}

split_path-join_example : split_path (join (home ∷ notes ∷ [])) 16 ≡ some (home ∷ notes ∷ [])
split_path-join_example =
    split_path-join 16 home (notes ∷ []) (omega arith) (home-IsComponent, (notes-IsComponent, tt))
