-- ===== src/PathName/Join.antt =====
-- core/utils.c: what `nexs_path_join` makes, the other two functions take apart.
use Prim.Native.Nat.{min}
use base_nexs.Common.{
  ℕ, zero, suc, ◌+◌, ◌-◌, ◌≤◌, ◌<◌, ◌≡◌, refl, ◌∙◌, ap, true, false, none, some, List, [], ◌∷◌,
  ◌++◌, take, drop, length, Bool-cases, inl, inr, length-append, arith, ne→==, take_short,
}
use mathlib.Core.List.{append_assoc}
use base_nexs.PathName.{
  is_absolute, ends_open, cat, join_one, join_from, nexs_path_join, last_slash, nexs_path_basename,
  nexs_path_dirname,
}
use base_nexs.PathName.Split.{NoSlash}

length-take : (n : ℕ) (s : List ℕ) → length (take n s) ≤ n
length-take zero s = omega arith
length-take (suc n) [] = omega arith
length-take (suc n) (c ∷ s) = let x = length-take n s in omega arith

length-cat : (bufsz : ℕ) (buf s : List ℕ) → length buf < bufsz → length (cat bufsz buf s) < bufsz
length-cat bufsz buf s h =
    let x = length-take (bufsz - length buf - 1) s in
    rw (length-append buf (take (bufsz - length buf - 1) s)) (omega arith)

length-join_one :
    (bufsz : ℕ) (buf seg : List ℕ) → length buf < bufsz → length (join_one bufsz buf seg) < bufsz
unfolding join_one
length-join_one bufsz buf seg h = elim (Bool-cases (is_absolute seg)) [
  | inl t ↦ rw t (let x = length-take (bufsz - 1) seg in omega arith)
  | inr f ↦ elim (Bool-cases (ends_open buf)) [
    | inl e ↦
        rw (f, e)
          (length-cat bufsz (cat bufsz buf (47 ∷ [])) seg (length-cat bufsz buf (47 ∷ []) h))
    | inr e ↦ rw (f, e) (length-cat bufsz buf seg h)
  ]
]

length-join_from :
    (bufsz : ℕ) (buf : List ℕ) (segs : List (List ℕ))
    → length buf < bufsz
    → length (join_from bufsz buf segs) < bufsz
unfolding join_from
length-join_from bufsz buf [] h = h
length-join_from bufsz buf (seg ∷ segs) h =
    length-join_from bufsz (join_one bufsz buf seg) segs (length-join_one bufsz buf seg h)

-- Whatever is joined, the text and its NUL fit the buffer.
pub length-nexs_path_join :
    (bufsz : ℕ) (segs : List (List ℕ)) → 0 < bufsz → length (nexs_path_join bufsz segs) < bufsz
unfolding nexs_path_join
length-nexs_path_join bufsz segs h = length-join_from bufsz [] segs h

last_slash-none : (s : List ℕ) → NoSlash s → last_slash s ≡ none
unfolding last_slash
last_slash-none [] h = refl
last_slash-none (c ∷ s) h = rw (last_slash, last_slash-none s (h.1), ne→== c 47 (h.0)) refl

last_slash-append :
    (dir name : List ℕ) → NoSlash name → last_slash (dir ++ (47 ∷ name)) ≡ some (length dir)
unfolding last_slash
last_slash-append [] name h = rw (last_slash, last_slash-none name h) refl
last_slash-append (c ∷ dir) name h = rw (last_slash, last_slash-append dir name h) refl

drop-append : (dir name : List ℕ) → drop (suc (length dir)) (dir ++ (47 ∷ name)) ≡ name
drop-append [] name = refl
drop-append (c ∷ dir) name = drop-append dir name

take-append : (dir name : List ℕ) → take (length dir) (dir ++ name) ≡ dir
take-append [] name = refl
take-append (c ∷ dir) name = ap (λ s. c ∷ s) (take-append dir name)

relative : (name : List ℕ) → NoSlash name → is_absolute name ≡ false
relative [] h = refl
relative (c ∷ name) h = ne→== c 47 (h.0)

-- A first segment that the buffer has room for.
join_first : (bufsz : ℕ) (dir : List ℕ) → length dir < bufsz → join_one bufsz [] dir ≡ dir
unfolding join_one
join_first bufsz dir h = elim (Bool-cases (is_absolute dir)) [
  | inl t ↦ rw t (take_short (bufsz - 1) dir (omega arith))
  | inr f ↦ rw f (take_short (bufsz - 0 - 1) dir (omega arith))
]

cat_fits : (bufsz : ℕ) (buf s : List ℕ) → length buf + length s < bufsz → cat bufsz buf s ≡ buf ++ s
cat_fits bufsz buf s h = ap (λ x. buf ++ x) (take_short (bufsz - length buf - 1) s (omega arith))

join_second :
    (bufsz : ℕ) (dir name : List ℕ)
    → ends_open dir ≡ true
    → NoSlash name
    → length dir + 1 + length name < bufsz
    → join_one bufsz dir name ≡ dir ++ (47 ∷ name)
unfolding join_one
join_second bufsz dir name o h fits =
    let whole : length (dir ++ (47 ∷ [])) ≡ length dir + 1 = length-append dir (47 ∷ []) in
    rw (relative name h, o)
      (ap (λ b. cat bufsz b name) (cat_fits bufsz dir (47 ∷ []) (omega arith))
        ∙ cat_fits bufsz (dir ++ (47 ∷ [])) name (omega arith)
        ∙ append_assoc dir (47 ∷ []) name)

nonempty : (dir : List ℕ) → ends_open dir ≡ true → 0 < length dir
nonempty [] e = cc
nonempty (c ∷ dir) e = omega arith

-- A directory that is not empty and does not end in a slash, joined with a name without slashes in a buffer with
-- room for both, a slash and the NUL: the path has this name as its last name, and, in a buffer that is larger than
-- the directory, this directory as its directory.
pub nexs_path_join-splits :
    (bufsz outsz : ℕ) (dir name : List ℕ)
    → ends_open dir ≡ true
    → NoSlash name
    → length dir + 1 + length name < bufsz
    → length dir < outsz
    → let path = nexs_path_join bufsz (dir ∷ name ∷ []) in
      (nexs_path_basename path ≡ name) × (nexs_path_dirname path outsz ≡ dir)
unfolding nexs_path_join join_from nexs_path_basename nexs_path_dirname
nexs_path_join-splits bufsz outsz dir name o h fits room =
    let joined = join_second bufsz dir name o h fits in
    let at = last_slash-append dir name h in
    let x = nonempty dir o in
    let m : min (length dir) (outsz - 1) ≡ length dir = omega arith in
    rw (join_first bufsz dir (omega arith), joined)
      (
        rw (nexs_path_basename, at) (drop-append dir name),
        rw (nexs_path_dirname, at, ne→== (length dir) 0 (omega arith), m)
            (take-append dir (47 ∷ name)),
      )
