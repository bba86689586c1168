-- ===== src/Buddy/Block.antt =====
-- What the buddy allocator promises: a pool is one block, which is vacant, taken, or forked into
-- two blocks of half its size.
use base_nexs.Common.{
  ℕ, zero, suc, ◌+◌, ◌-◌, ◌/◌, ◌^◌, ◌≤◌, ◌<◌, Option, none, some, List, [], ◌∷◌, ◌++◌, ltb, ◌⊎◌,
  ◌==◌, if◌then◌else◌,
}

pub data Block : Type 0 where
  vacant taken : Block
  fork : Block → Block → Block

-- A vacant block after its first part, `k` halvings smaller, has been taken.
unfoldable pub carve : ℕ → Block
carve zero = taken
carve (suc k) = fork (carve k) vacant

-- First fit: take the leftmost vacant part of level `r` in a block of level `d`. Levels count the
-- doublings above the least block, and the place is counted in least blocks.
unfoldable pub place : ℕ → ℕ → Block → Option (Block × ℕ)
place d r taken = none
place d r vacant = if ltb d r then none else some (carve (d - r), 0)
place zero r (fork a b) = none
place (suc d) r (fork a b) = elim (place d r a) [
  | some (a', o) ↦ some (fork a' b, o)
  | none ↦ elim (place d r b) [ some (b', o) ↦ some (fork a b', 2 ^ d + o) | none ↦ none ]
]

-- Two vacant halves are one vacant block.
unfoldable pub join : Block → Block → Block
join vacant vacant = vacant
join a b = fork a b

-- Give back the taken block that starts at byte `target`; `off` and `size` are the bytes of the block.
unfoldable pub release : ℕ → ℕ → ℕ → Block → Block
release target size off vacant = vacant
release target size off taken = if off == target then vacant else taken
release target size off (fork a b) =
    if ltb target (off + size / 2)
    then join (release target (size / 2) off a) b
    else join a (release target (size / 2) (off + size / 2) b)

-- The bytes that are taken, as pairs of a start and a size, from left to right.
unfoldable pub spans : ℕ → ℕ → Block → List (ℕ × ℕ)
spans size off vacant = []
spans size off taken = (off, size) ∷ []
spans size off (fork a b) = spans (size / 2) off a ++ spans (size / 2) (off + size / 2) b

abbrev pub IsVacant : Block → Type 0
IsVacant vacant = Unit {0}
IsVacant _ = ⊥

-- A block of level `d` forks at most `d` times, and no fork has two vacant halves.
abbrev pub IsNormal : ℕ → Block → Type 0
IsNormal d vacant = Unit {0}
IsNormal d taken = Unit {0}
IsNormal zero (fork a b) = ⊥
IsNormal (suc d) (fork a b) = IsNormal d a × IsNormal d b × (IsVacant a → IsVacant b → ⊥)

-- Somewhere in a block of level `d` there is a vacant block of level `r` at least.
abbrev pub HasRoom : ℕ → ℕ → Block → Type 0
HasRoom d r vacant = r ≤ d
HasRoom d r taken = ⊥
HasRoom zero r (fork a b) = ⊥
HasRoom (suc d) r (fork a b) = HasRoom d r a ⊎ HasRoom d r b

-- Blocks that lie one behind the other, none of them empty, between `lo` and `hi`.
abbrev pub Ordered : ℕ → ℕ → List (ℕ × ℕ) → Type 0
Ordered lo hi [] = lo ≤ hi
Ordered lo hi ((start, size) ∷ rest) = (lo ≤ start) × (0 < size) × Ordered (start + size) hi rest

-- All but the blocks that start at `target`.
abbrev pub without : ℕ → List (ℕ × ℕ) → List (ℕ × ℕ)
without target [] = []
without target ((start, size) ∷ rest) =
    if start == target then without target rest else (start, size) ∷ without target rest
