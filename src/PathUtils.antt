-- ===== src/PathUtils.antt =====
-- `PathUtils` of include/common/path_utils.hpp. A C string is the list of its characters, without
-- the terminator.
pub mod Split
pub mod Examples
use pingu_os.Common.{
  ℕ, zero, suc, ◌+◌, ◌-◌, Bool, true, false, not, ◌&&◌, Option, none, some, List, [], ◌∷◌, ◌++◌,
  ltb, ◌==◌, if◌then◌else◌, length, take,
}
use pingu_os.Common.Bytes.{Bytes}

abbrev pub slash : ℕ
slash = b'/'

abbrev pub dot : ℕ
dot = b'.'

-- At most `max_len - 1` characters are copied.
unfoldable pub safe_strcpy : Bytes → ℕ → Bytes
safe_strcpy src max_len = take (max_len - 1) src

unfoldable pub strcmp : Bytes → Bytes → Bool
strcmp [] [] = true
strcmp [] (y ∷ ys) = false
strcmp (x ∷ xs) [] = false
strcmp (x ∷ xs) (y ∷ ys) = if not (x == y) then false else strcmp xs ys

unfoldable pub strlen : Bytes → ℕ
strlen [] = 0
strlen (x ∷ xs) = suc (strlen xs)

abbrev pub is_empty : Bytes → Bool
is_empty [] = true
is_empty (x ∷ xs) = false

-- The last component, if there is room for it.
unfoldable pub split_last : ℕ → List Bytes → Bytes → List Bytes
split_last max components comp =
    if not (is_empty comp) && ltb (length components) max
    then components ++ comp ∷ []
    else components

-- The loop, at the characters that are left: the components so far, and the one in progress.
unfoldable pub split_loop : ℕ → List Bytes → Bytes → Bytes → List Bytes
unfolding split_last
split_loop max components comp [] = split_last max components comp
split_loop max components comp (c ∷ cs) =
    let skip = split_loop max components comp cs in
    let close = split_loop max (components ++ comp ∷ []) [] cs in
    let keep = split_loop max components (comp ++ c ∷ []) cs in
    if not (ltb (length components) max)
    then split_last max components comp
    else (if c == slash
        then (if is_empty comp then skip else close)
        else (if ltb (length comp) 255 then keep else skip))

-- `none` where the source returns false: a path is absolute.
unfoldable pub split_path : Bytes → ℕ → Option (List Bytes)
unfolding split_loop
split_path [] max = none
split_path (c ∷ cs) max = if not (c == slash) then none else some (split_loop max [] [] cs)

-- The index of the last occurrence; `none` is the source's -1.
unfoldable pub get_index_from : ℕ → Option ℕ → Bytes → ℕ → Option ℕ
get_index_from i found [] target = found
get_index_from i found (c ∷ cs) target =
    get_index_from (i + 1) (if c == target then some i else found) cs target

unfoldable pub get_index : Bytes → ℕ → Option ℕ
unfolding get_index_from
get_index src target = get_index_from 0 none src target

unfoldable pub match_filename : Bytes → Bytes → Bool
match_filename filename pattern = strcmp filename pattern

unfoldable pub last_or : ℕ → Bytes → ℕ
last_or before [] = before
last_or before (c ∷ cs) = last_or c cs

-- `before` is the byte in front of the buffer, which the source reads if `first` is empty.
unfoldable pub merge_path : ℕ → Bytes → Bytes → Bytes
unfolding last_or
merge_path before first second =
    if not (last_or before first == slash) then first ++ slash ∷ second else first ++ second
