-- ===== src/FnTable/Register.antt =====
-- What registering a user function does to the table, and what looking it up then finds.
use base_nexs.Common.{
  ℕ, zero, suc, ◌-◌, ◌≤◌, ◌<◌, ◌≡◌, ◌≢◌, refl, ap, ◌⊎◌, inl, inr, true, false, Option, none, some,
  List, [], ◌∷◌, take, str_eq→eq, first_from, first_from_sound, arith, length, Option-cases, lt→leb,
  ne→==, eq→==, le→leb,
}
use native.Mathlib.Decide.{dec_lt}
use base_nexs.Config.{Limits}
use base_nexs.FnTable.{FnTable, cut, is_user, replaced, appended, fn_register, release}

pub cut-short : (n : ℕ) (s : List ℕ) → length s < n → cut n s ≡ s
cut-short n s h = take-short (n - 1) s (omega arith)
  where
    take-short : (m : ℕ) (xs : List ℕ) → length xs ≤ m → take m xs ≡ xs
    take-short zero [] h = refl
    take-short zero (x ∷ xs) h = absurd (omega arith)
    take-short (suc m) [] h = refl
    take-short (suc m) (x ∷ xs) h = ap (λ r. x ∷ r) (take-short m xs (omega arith))

module _ {B F : Type 0} where
  -- What `fn_register` has done when it answers the index `i`.
  pub record IsRegistered (t t' : FnTable B F) (name : List ℕ) (body : Option B) (n_params i : ℕ)
      : Type 0 where
    pub in_table : i < t'.count
    pub entry_name : (t'.defs i).name ≡ name
    pub entry_body : (t'.defs i).body ≡ body
    pub entry_params : (t'.defs i).n_params ≡ n_params
    pub entry_user : (t'.defs i).is_builtin ≡ false
    pub others : (j : ℕ) → j ≢ i → t'.defs j ≡ t.defs j
    -- The body that it had is freed, and a function that is not new keeps its place.
    pub old_body :
        (t'.count ≡ t.count) × (i < t.count) × (t'.freed ≡ release (t.defs i).body t.freed)
        ⊎ (t'.count ≡ suc t.count) × (i ≡ t.count) × (t'.freed ≡ t.freed)

  pub replaced_state :
      (l : Limits) (t : FnTable B F) (name : List ℕ) (body : Option B) (params : ℕ → List ℕ)
      (n i : ℕ)
      → first_from t.count 0 (is_user t name) ≡ some i
      → fn_register l t name body params n ≡ (replaced l t i body params n, some i)
  unfolding fn_register
  replaced_state l t name body params n i e = rw (e, fn_register)

  pub appended_state :
      (l : Limits) (t : FnTable B F) (name : List ℕ) (body : Option B) (params : ℕ → List ℕ) (n : ℕ)
      → first_from t.count 0 (is_user t name) ≡ none
      → t.count < l.max_fn_defs
      → fn_register l t name body params n ≡ (appended l t name body params n, some t.count)
  unfolding fn_register
  appended_state l t name body params n e h = rw (fn_register, e, lt→leb l.max_fn_defs t.count h)

  pub full_state :
      (l : Limits) (t : FnTable B F) (name : List ℕ) (body : Option B) (params : ℕ → List ℕ) (n : ℕ)
      → first_from t.count 0 (is_user t name) ≡ none
      → l.max_fn_defs ≤ t.count
      → fn_register l t name body params n ≡ (t, none)
  unfolding fn_register
  full_state l t name body params n e h = rw (fn_register, e, le→leb l.max_fn_defs t.count h)

  replaced-IsRegistered :
      (l : Limits) (t : FnTable B F) (name : List ℕ) (body : Option B) (params : ℕ → List ℕ)
      (n i : ℕ)
      → i < t.count
      → is_user t name i ≡ true
      → IsRegistered t (replaced l t i body params n) name body n i
  unfolding replaced
  replaced-IsRegistered l t name body params n i h u =
      let e = str_eq→eq (t.defs i).name name (ground arith) in
      let s = eq→== i i refl in
      record {
        in_table = h;
        entry_name = rw (s) e;
        entry_body = rw (s);
        entry_params = rw (s);
        entry_user = rw (s) (ground arith);
        others = λ j d. rw (ne→== j i d);
        old_body = inl (refl, h, refl);
      }

  appended-IsRegistered :
      (l : Limits) (t : FnTable B F) (name : List ℕ) (body : Option B) (params : ℕ → List ℕ) (n : ℕ)
      → length name < l.name_len
      → IsRegistered t (appended l t name body params n) name body n t.count
  unfolding appended
  appended-IsRegistered l t name body params n h =
      let s = eq→== t.count t.count refl in
      record {
        in_table = omega arith;
        entry_name = rw (s) (cut-short l.name_len name h);
        entry_body = rw (s);
        entry_params = rw (s);
        entry_user = rw (s);
        others = λ j d. rw (ne→== j t.count d);
        old_body = inr (omega arith, refl, refl);
      }

  -- A user function whose name fits its buffer is registered, under an index that holds its name, body
  -- and number of parameters, no other entry changed, unless its name is new and the table is full: then
  -- the answer is -1 and nothing changes.
  pub fn_register-IsRegistered :
      (l : Limits) (t : FnTable B F) (name : List ℕ) (body : Option B) (params : ℕ → List ℕ) (n : ℕ)
      → length name < l.name_len
      → (fn_register l t name body params n ≡ (t, none)) × (l.max_fn_defs ≤ t.count)
        ⊎ ((t' : FnTable B F) × (i : ℕ) × (fn_register l t name body params n ≡ (t', some i))
            × IsRegistered t t' name body n i)
  fn_register-IsRegistered l t name body params n h =
      elim (Option-cases (first_from t.count 0 (is_user t name))) [
        | inr (i, e) ↦
            let (a, b, c) = first_from_sound t.count 0 (is_user t name) i e in
            inr (
              replaced l t i body params n,
              i,
              replaced_state l t name body params n i e,
              replaced-IsRegistered l t name body params n i (omega arith) c,
            )
        | inl e ↦ elim (dec_lt t.count l.max_fn_defs) [
          | yes g ↦ inr (
            appended l t name body params n,
            t.count,
            appended_state l t name body params n e g,
            appended-IsRegistered l t name body params n h,
          )
          | no g ↦ inl (full_state l t name body params n e (omega arith), omega arith)
        ]
      ]
