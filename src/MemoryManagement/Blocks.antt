-- ===== src/MemoryManagement/Blocks.antt =====
-- What the heap stands for: its chunks in address order, each with its payload size and whether it
-- is allocated. The headers of `MemoryManagement` represent such a list.
use pingu_os.Common.{
  ℕ, ◌+◌, ◌-◌, ◌<◌, ◌≡◌, Bool, true, false, not, ◌&&◌, List, [], ◌∷◌, ltb, leb, ◌==◌, if◌then◌else◌,
}
use pingu_os.MemoryManagement.{Memory, header_size}

abbrev pub Block : Type 0
Block = ℕ × Bool

abbrev pub Blocks : Type 0
Blocks = List Block

-- The pointer to the chunks that start at `s`: null if there are none.
abbrev pub entry : ℕ → Blocks → ℕ
entry s [] = 0
entry s (b ∷ bs) = s

-- The address behind a chunk at `s` with payload `n`.
abbrev pub behind : ℕ → ℕ → ℕ
behind s n = s + header_size + n

-- An allocated chunk without padding before its payload has the offset 0.
abbrev pub Plain : Bool → ℕ → Type 0
Plain true offset = offset ≡ 0
Plain false offset = Unit

-- The headers of the chunks `bs` tile the addresses from `s` to `e`, linked both ways; the chunk
-- before them is `prev`, or none.
abbrev pub Layout : Memory → ℕ → ℕ → Blocks → ℕ → Type 0
Layout m prev s [] e = s ≡ e
Layout m prev s ((n, used) ∷ bs) e =
    ((m s).prev ≡ prev)
    × ((m s).size ≡ n)
    × ((m s).allocated ≡ used)
    × ((m s).next ≡ entry (behind s n) bs)
    × Plain used (m s).offset
    × Layout m s (behind s n) bs e

-- `g` agrees with `m` below `s`.
abbrev pub SameBelow : ℕ → Memory → Memory → Type 0
SameBelow s m g = (a : ℕ) → a < s → g a ≡ m a

-- First fit: the payload of the first free chunk that is larger than `size` is cut to `size` if
-- the rest can hold a header and one byte, and is given whole otherwise.
unfoldable pub cut : ℕ → ℕ → Blocks → Blocks
cut size n bs =
    if leb (size + header_size + 1) n
    then (size, true) ∷ (n - size - header_size, false) ∷ bs
    else (n, true) ∷ bs

unfoldable pub fits : ℕ → Block → Bool
fits size (n, used) = ltb size n && not used

-- The address of the chunk that first fit takes, or 0.
unfoldable pub first_fit : ℕ → ℕ → Blocks → ℕ
unfolding fits
first_fit size s [] = 0
first_fit size s (b ∷ bs) = if fits size b then s else first_fit size (behind s b.0) bs

unfoldable pub alloc : ℕ → Blocks → Blocks
unfolding fits cut
alloc size [] = []
alloc size (b ∷ bs) = if fits size b then cut size b.0 bs else b ∷ alloc size bs

-- A free chunk of payload `n` in front of `bs` takes in a free chunk directly behind it.
unfoldable pub join : ℕ → Blocks → Blocks
join n [] = (n, false) ∷ []
join n ((k, true) ∷ bs) = (n, false) ∷ (k, true) ∷ bs
join n ((k, false) ∷ bs) = (n + k + header_size, false) ∷ bs

-- Giving back the chunk at `t`, seen from the chunk `b` in front of those at `s`.
unfoldable pub release_after : Block → ℕ → ℕ → Blocks → Blocks
unfolding join
release_after b s t [] = b ∷ []
release_after (n, used) s t ((k, u) ∷ bs) =
    let rest = (n, used) ∷ release_after (k, u) (behind s k) t bs in
    if s == t then (if used then (n, used) ∷ join k bs else join (n + k + header_size) bs) else rest

unfoldable pub release : ℕ → ℕ → Blocks → Blocks
unfolding join release_after
release s t [] = []
release s t ((n, used) ∷ bs) =
    if s == t then join n bs else release_after (n, used) (behind s n) t bs

-- There is an allocated chunk at `t`.
abbrev pub Holds : ℕ → Blocks → ℕ → Type 0
Holds s [] t = ⊥
Holds s ((n, used) ∷ bs) t = if s == t then (used ≡ true) else Holds (behind s n) bs t
