-- ===== src/FnTable/Lookup.antt =====
-- What looking a name up finds after a user function has been registered under it.
use base_nexs.Common.{
  ℕ, zero, suc, ◌+◌, ◌<◌, ◌≡◌, refl, sym, ap, ◌∙◌, inl, inr, Bool, true, false, Option, none, some,
  List, str_eq, str_eq_refl, first_from, first_from_sound, first_from-none, first_from-least, arith,
  length, Option-cases, eq→==,
}
use mathlib.Core.Path.{subst}
use native.Mathlib.Decide.{ℕ_discrete, dec_lt}
use base_nexs.Config.{Limits}
use base_nexs.FnTable.{FnTable, is_user, replaced, appended, fn_register, fn_lookup}
use base_nexs.FnTable.Register.{cut-short, replaced_state, appended_state, full_state}

first_from-found :
    (n : ℕ) (test : ℕ → Bool) (j : ℕ)
    → j < n
    → test j ≡ true
    → ((k : ℕ) → k < j → test k ≡ false)
    → first_from n 0 test ≡ some j
first_from-found n test j h e least = elim (Option-cases (first_from n 0 test)) [
  | inl f ↦ let g = first_from-none n 0 test j f (omega arith) (omega arith) in cc
  | inr (k, f) ↦
      let (a, b, c) = first_from_sound n 0 test k f in
      f
      ∙ ap some (elim (ℕ_discrete k j) [
        | yes p ↦ p
        | no p ↦ elim (dec_lt k j) [
          | yes q ↦ let g = least k q in cc
          | no q ↦ let g = first_from-least n 0 test k j f (omega arith) (omega arith) in cc
        ]
      ])
]

first_from-cong :
    (n i : ℕ) (test test' : ℕ → Bool)
    → ((j : ℕ) → test' j ≡ test j)
    → first_from n i test' ≡ first_from n i test
unfolding first_from
first_from-cong zero i test test' h = refl
first_from-cong (suc n) i test test' h = rw (h i, first_from-cong n (i + 1) test test' h)

abbrev pub found_or : Option ℕ → ℕ → ℕ
found_or none i = i
found_or (some m) i = m

module _ {B F : Type 0} (l : Limits) (t : FnTable B F) (name : List ℕ) (body : Option B)
    (params : ℕ → List ℕ) (n : ℕ) where
  replaced_name : (i j : ℕ) → ((replaced l t i body params n).defs j).name ≡ (t.defs j).name
  unfolding replaced
  replaced_name i j = elim (ℕ_discrete j i) [ yes p ↦ ground arith | no p ↦ ground arith ]

  lookup-replaced : (i : ℕ) → fn_lookup (replaced l t i body params n) name ≡ fn_lookup t name
  unfolding fn_lookup replaced
  lookup-replaced i =
      first_from-cong t.count 0 _ _ (λ j. ap (λ s. str_eq s name) (replaced_name i j))

  appended_name :
      (j : ℕ) → j < t.count → ((appended l t name body params n).defs j).name ≡ (t.defs j).name
  unfolding appended
  appended_name j h = ground arith

  appended_own :
      length name < l.name_len
      → str_eq ((appended l t name body params n).defs t.count).name name ≡ true
  unfolding appended
  appended_own h = rw (eq→== t.count t.count refl, cut-short l.name_len name h) (str_eq_refl name)

  appended_count : (appended l t name body params n).count ≡ t.count + 1
  unfolding appended
  appended_count = refl

  lookup-appended_known :
      (m : ℕ)
      → fn_lookup t name ≡ some m
      → fn_lookup (appended l t name body params n) name ≡ some m
  unfolding fn_lookup
  lookup-appended_known m e =
      let (a, b, c) = first_from_sound t.count 0 _ m e in
      let d : m < t.count = omega arith in
      first_from-found (appended l t name body params n).count _ m (omega (arith, appended_count))
        (ap (λ s. str_eq s name) (appended_name m d) ∙ c)
        (λ k h.
          ap (λ s. str_eq s name) (appended_name k (omega arith))
          ∙ first_from-least t.count 0 _ m k e (omega arith) h)

  lookup-appended_new :
      fn_lookup t name ≡ none
      → length name < l.name_len
      → fn_lookup (appended l t name body params n) name ≡ some t.count
  unfolding fn_lookup
  lookup-appended_new e h =
      first_from-found (appended l t name body params n).count _ t.count
        (omega (arith, appended_count)) (appended_own h)
        (λ k g.
          ap (λ s. str_eq s name) (appended_name k g)
          ∙ first_from-none t.count 0 _ k e (omega arith) (omega arith))

  user_found :
      (i : ℕ) → first_from t.count 0 (is_user t name) ≡ some i → fn_lookup t name ≡ none → ⊥
  unfolding fn_lookup
  user_found i e f =
      let (a, b, c) = first_from_sound t.count 0 (is_user t name) i e in
      let d = first_from-none t.count 0 _ i f (omega arith) (omega arith) in ground arith

  -- When a user function with a name that fits its buffer is registered under an index, looking the name up
  -- finds what it found before, a built-in function too; it finds that index if it found nothing before.
  pub fn_lookup-fn_register :
      length name < l.name_len
      → (t' : FnTable B F) (i : ℕ) → fn_register l t name body params n ≡ (t', some i)
      → fn_lookup t' name ≡ some (found_or (fn_lookup t name) i)
  fn_lookup-fn_register h t' i e = elim (Option-cases (first_from t.count 0 (is_user t name))) [
    | inr (j, f) ↦
        let g = sym (replaced_state l t name body params n j f) ∙ e in
        elim (Option-cases (fn_lookup t name)) [
          | inl k ↦ absurd (user_found j f k)
          | inr (m, k) ↦
              subst (λ s. fn_lookup s name ≡ some (found_or (fn_lookup t name) i)) (ap (λ r. r.0) g)
                (lookup-replaced j ∙ k ∙ ap (λ o. some (found_or o i)) (sym k))
        ]
    | inl f ↦ elim (dec_lt t.count l.max_fn_defs) [
      | no g ↦
          let k = sym (full_state l t name body params n f (omega arith)) ∙ e in
          absurd (none_some (ap (λ r. r.1) k))
      | yes g ↦
          let k = sym (appended_state l t name body params n f g) ∙ e in
          subst (λ s. fn_lookup s name ≡ some (found_or (fn_lookup t name) i)) (ap (λ r. r.0) k)
            (elim (Option-cases (fn_lookup t name)) [
              | inl x ↦
                  lookup-appended_new x h ∙ ap (λ r. r.1) k ∙ ap (λ o. some (found_or o i)) (sym x)
              | inr (m, x) ↦ lookup-appended_known m x ∙ ap (λ o. some (found_or o i)) (sym x)
            ])
    ]
  ]
    where
      none_some : none ≡ some i → ⊥
      none_some x = cc
