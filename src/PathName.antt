-- ===== src/PathName.antt =====
-- core/utils.c: the last name of a path and the directory before it, paths that are joined, and trimming, as C
-- strings; '/' is 47. `isspace` is that of ASCII.
pub mod Split
pub mod Join
mod Tests
use Prim.Native.Nat.{min}
use base_nexs.Common.{
  ◌++◌, ◌||◌, not, leb, length, zero, ◌+◌, ◌&&◌, ℕ, suc, ◌-◌, Bool, true, false, Option, none, some,
  List, [], ◌∷◌, ◌==◌, if◌then◌else◌, take, drop,
}

-- `strrchr(path, '/')`, as an index.
unfoldable pub last_slash : List ℕ → Option ℕ
last_slash [] = none
last_slash (c ∷ s) = elim (last_slash s) [
  | some i ↦ some (suc i)
  | none ↦ if c == 47 then some 0 else none
]

unfoldable pub nexs_path_basename : List ℕ → List ℕ
nexs_path_basename path = elim (last_slash path) [ none ↦ path | some i ↦ drop (suc i) path ]

-- What the buffer of `outsz` bytes holds; `outsz` is not 0.
unfoldable pub nexs_path_dirname : List ℕ → ℕ → List ℕ
nexs_path_dirname path outsz = elim (last_slash path) [
  | none ↦ take (outsz - 1) (47 ∷ [])
  | some i ↦ if i == 0 then take (outsz - 1) (47 ∷ []) else take (min i (outsz - 1)) path
]

abbrev pub is_space : ℕ → Bool
is_space c = c == 32 || (leb 9 c && leb c 13)

unfoldable pub trim_left : List ℕ → List ℕ
trim_left [] = []
trim_left (c ∷ s) = let rest = trim_left s in if is_space c then rest else c ∷ s

-- A character in front of what is left of the rest.
abbrev pub keep : ℕ → List ℕ → List ℕ
keep c [] = if is_space c then [] else c ∷ []
keep c (d ∷ s) = c ∷ d ∷ s

unfoldable pub trim_right : List ℕ → List ℕ
trim_right [] = []
trim_right (c ∷ s) = keep c (trim_right s)

unfoldable pub nexs_trim : List ℕ → List ℕ
nexs_trim s = trim_right (trim_left s)

-- `strncat` up to the end of a buffer of `bufsz` bytes.
abbrev pub cat : ℕ → List ℕ → List ℕ → List ℕ
cat bufsz buf s = buf ++ take (bufsz - length buf - 1) s

abbrev pub ends_open : List ℕ → Bool
ends_open [] = false
ends_open (c ∷ []) = not (c == 47)
ends_open (c ∷ d ∷ s) = ends_open (d ∷ s)

abbrev pub is_absolute : List ℕ → Bool
is_absolute [] = false
is_absolute (c ∷ s) = c == 47

-- One round of the loop over the segments.
unfoldable pub join_one : ℕ → List ℕ → List ℕ → List ℕ
join_one bufsz buf seg =
    if is_absolute seg
    then take (bufsz - 1) seg
    else cat bufsz (if ends_open buf then cat bufsz buf (47 ∷ []) else buf) seg

unfoldable pub join_from : ℕ → List ℕ → List (List ℕ) → List ℕ
join_from bufsz buf [] = buf
join_from bufsz buf (seg ∷ segs) = join_from bufsz (join_one bufsz buf seg) segs

-- What a buffer of `bufsz` bytes holds; `bufsz` is not 0.
unfoldable pub nexs_path_join : ℕ → List (List ℕ) → List ℕ
nexs_path_join bufsz segs = join_from bufsz [] segs
