-- ===== src/MemoryManagement/Layout.antt =====
-- Which changes of memory a layout of headers survives.
use pingu_os.Common.{ℕ, ◌≤◌, ◌<◌, ◌≡◌, refl, [], ◌∷◌, arith, ◌⊎◌, inl, inr}
use pingu_os.MemoryManagement.{Memory}
use pingu_os.MemoryManagement.Blocks.{Blocks, entry, behind, Layout}

pub Layout-same :
    (m g : Memory) (prev s : ℕ) (bs : Blocks) (e : ℕ)
    → ((a : ℕ) → s ≤ a → g a ≡ m a)
    → Layout m prev s bs e
    → Layout g prev s bs e
Layout-same m g prev s [] e same l = l
Layout-same m g prev s ((n, used) ∷ bs) e same l =
    ground (arith, same s, Layout-same m g s (behind s n) bs e (λ a h. same a (omega arith)) l.5)

pub Layout-le : (m : Memory) (prev s : ℕ) (bs : Blocks) (e : ℕ) → Layout m prev s bs e → s ≤ e
Layout-le m prev s [] e l = omega arith
Layout-le m prev s ((n, used) ∷ bs) e l = omega (arith, Layout-le m s (behind s n) bs e l.5)

-- Nothing but the link back to what lies in front changes.
pub Layout-relink :
    (m g : Memory) (prev p s : ℕ) (bs : Blocks) (e : ℕ)
    → ((a : ℕ) → s < a → g a ≡ m a)
    → (entry s bs ≡ s → g s ≡ record (m s) { prev = p })
    → Layout m prev s bs e
    → Layout g p s bs e
Layout-relink m g prev p s [] e same first l = l
Layout-relink m g prev p s ((n, used) ∷ bs) e same first l =
    let f = first refl in
    let rest : Layout g s (behind s n) bs e =
      Layout-same m g s (behind s n) bs e (λ a h. same a (omega arith)) l.5 in
    rw f (refl, l.1, l.2, l.3, l.4, rest)

pub entry-cases : (s : ℕ) (bs : Blocks) → (entry s bs ≡ 0) ⊎ (entry s bs ≡ s)
entry-cases s [] = inl refl
entry-cases s (b ∷ bs) = inr refl
