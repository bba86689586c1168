-- ===== src/PathName/Tests.antt =====
-- Runs of the path functions.
use base_nexs.Common.{◌≡◌, ◌⊎◌, refl, [], ◌∷◌, ◌++◌, arith}
use base_nexs.PathName.{
  nexs_path_basename, nexs_path_dirname, last_slash, nexs_path_join, nexs_trim, trim_left,
  trim_right,
}
use base_nexs.PathName.Join.{nexs_path_join-splits}
use base_nexs.PathName.Split.{NoSlash, nexs_path_dirname-nexs_path_basename}

-- "/a/b" and "b"
directory : nexs_path_dirname (47 ∷ 97 ∷ 47 ∷ 98 ∷ []) 64 ≡ 47 ∷ 97 ∷ []
unfolding nexs_path_dirname last_slash
directory = refl

nexs_path_dirname-nexs_path_basename_example :
    NoSlash (nexs_path_basename (97 ∷ 47 ∷ 98 ∷ []))
    × ((nexs_path_dirname (97 ∷ 47 ∷ 98 ∷ []) 64 ++ (47 ∷ nexs_path_basename (97 ∷ 47 ∷ 98 ∷ []))
          ≡ 97 ∷ 47 ∷ 98 ∷ [])
        ⊎ ((nexs_path_dirname (97 ∷ 47 ∷ 98 ∷ []) 64 ≡ 47 ∷ [])
            × ((97 ∷ 47 ∷ 98 ∷ [] ≡ nexs_path_basename (97 ∷ 47 ∷ 98 ∷ []))
                ⊎ (97 ∷ 47 ∷ 98 ∷ [] ≡ 47 ∷ nexs_path_basename (97 ∷ 47 ∷ 98 ∷ [])))))
nexs_path_dirname-nexs_path_basename_example =
    nexs_path_dirname-nexs_path_basename (97 ∷ 47 ∷ 98 ∷ []) 64 (omega arith) (omega arith)

-- "/a" and "b" in a buffer of 8
nexs_path_join-splits_example :
    let path = nexs_path_join 8 ((47 ∷ 97 ∷ []) ∷ (98 ∷ []) ∷ []) in
    (nexs_path_basename path ≡ 98 ∷ []) × (nexs_path_dirname path 8 ≡ 47 ∷ 97 ∷ [])
nexs_path_join-splits_example =
    nexs_path_join-splits 8 8 (47 ∷ 97 ∷ []) (98 ∷ []) refl (λ e. omega arith, tt) (omega arith)
      (omega arith)

-- " a b " between blanks
trimmed : nexs_trim (32 ∷ 97 ∷ 32 ∷ 98 ∷ 10 ∷ 32 ∷ []) ≡ 97 ∷ 32 ∷ 98 ∷ []
unfolding nexs_trim trim_left trim_right
trimmed = refl
