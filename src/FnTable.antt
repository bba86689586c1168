-- ===== src/FnTable.antt =====
-- lang/fn_table.c: the table of user-defined and built-in functions. `B` stands for the syntax trees of
-- function bodies and `F` for C functions, which the table only keeps. A tree that `ast_free` gets joins
-- `freed`. Names and parameters are C strings, cut to what their buffers hold; no name is NULL.
pub mod Register
pub mod Lookup
mod Tests
use base_nexs.Common.{
  ℕ, zero, suc, ◌+◌, ◌-◌, Bool, true, false, not, ◌&&◌, ◌||◌, Option, none, some, List, [], ◌∷◌,
  ◌++◌, take, leb, ltb, if◌then◌else◌, update, str_eq, first_from,
}
use base_nexs.Config.{Limits}
use base_nexs.Vfs.{ℤ, pos, negsuc}
use Prim.Native.Nat.{min}

-- `NexsFnDef`
pub record FnDef (B F : Type 0) : Type 0 where
  pub name : List ℕ
  pub params : ℕ → List ℕ
  pub n_params : ℕ
  pub body : Option B
  pub ref_count : ℤ
  pub is_builtin : Bool
  pub builtin_fn : Option F
  pub signature : List ℕ

pub record FnTable (B F : Type 0) : Type 0 where
  pub defs : ℕ → FnDef B F
  pub count : ℕ
  pub freed : List B

-- `strncpy` into a buffer of `n` bytes whose last byte is then set to 0.
abbrev pub cut : ℕ → List ℕ → List ℕ
cut n s = take (n - 1) s

-- The first `j` parameters are written over the old ones.
unfoldable pub copy_params : ℕ → ℕ → (ℕ → List ℕ) → (ℕ → List ℕ) → ℕ → List ℕ
copy_params name_len zero given old = old
copy_params name_len (suc j) given old =
    update (copy_params name_len j given old) j (cut name_len (given j))

abbrev pub inc : ℤ → ℤ
inc (pos n) = pos (n + 1)
inc (negsuc zero) = pos 0
inc (negsuc (suc n)) = negsuc n

abbrev pub dec : ℤ → ℤ
dec (pos zero) = negsuc 0
dec (pos (suc n)) = pos n
dec (negsuc n) = negsuc (n + 1)

abbrev pub is_positive : ℤ → Bool
is_positive (pos n) = ltb 0 n
is_positive (negsuc n) = false

module _ {B : Type 0} where
  abbrev pub release : Option B → List B → List B
  release none freed = freed
  release (some b) freed = b ∷ freed

module _ {B F : Type 0} where
  abbrev pub is_user : FnTable B F → List ℕ → ℕ → Bool
  is_user t name i = not (t.defs i).is_builtin && str_eq (t.defs i).name name

  abbrev pub is_builtin_of : FnTable B F → List ℕ → ℕ → Bool
  is_builtin_of t name i = (t.defs i).is_builtin && str_eq (t.defs i).name name

  unfoldable pub replaced : Limits → FnTable B F → ℕ → Option B → (ℕ → List ℕ) → ℕ → FnTable B F
  replaced l t i body params n_params =
      let def = t.defs i in
      record t {
        defs = update t.defs i (record def {
          body = body;
          params = copy_params l.name_len (min n_params l.max_params) params def.params;
          n_params = n_params;
        });
        freed = release def.body t.freed;
      }

  unfoldable pub appended :
      Limits → FnTable B F → List ℕ → Option B → (ℕ → List ℕ) → ℕ → FnTable B F
  appended l t name body params n_params =
      let def = t.defs t.count in
      record t {
        defs = update t.defs t.count (record def {
          name = cut l.name_len name;
          body = body;
          params = copy_params l.name_len (min n_params l.max_params) params def.params;
          n_params = n_params;
          ref_count = pos 1;
          is_builtin = false;
          builtin_fn = none;
        });
        count = t.count + 1;
      }

  -- The index, or `none` for -1.
  unfoldable pub fn_register :
      Limits → FnTable B F → List ℕ → Option B → (ℕ → List ℕ) → ℕ → FnTable B F × Option ℕ
  fn_register l t name body params n_params = elim (first_from t.count 0 (is_user t name)) [
    | some i ↦ (replaced l t i body params n_params, some i)
    | none ↦
        if leb l.max_fn_defs t.count
        then (t, none)
        else (appended l t name body params n_params, some t.count)
  ]

  abbrev pub with_signature : FnDef B F → Option (List ℕ) → FnDef B F
  with_signature def none = def
  with_signature def (some sig) = record def { signature = cut 128 sig }

  unfoldable pub fn_register_builtin_sig :
      Limits → FnTable B F → List ℕ → F → Option (List ℕ) → FnTable B F × Option ℕ
  fn_register_builtin_sig l t name f sig = elim (first_from t.count 0 (is_builtin_of t name)) [
    | some i ↦ (
      record t {
        defs = update t.defs i (with_signature (record (t.defs i) { builtin_fn = some f }) sig);
      },
      some i,
    )
    | none ↦ if leb l.max_fn_defs t.count then (t, none) else (
      record t {
        defs = update t.defs t.count (
            with_signature
              (record (t.defs t.count) {
                name = cut l.name_len name;
                body = none;
                is_builtin = true;
                builtin_fn = some f;
                ref_count = pos 1;
                n_params = 0;
              })
              sig);
        count = t.count + 1;
      },
      some t.count,
    )
  ]

  unfoldable pub fn_register_builtin : Limits → FnTable B F → List ℕ → F → FnTable B F × Option ℕ
  fn_register_builtin l t name f = fn_register_builtin_sig l t name f none

  unfoldable pub fn_lookup : FnTable B F → List ℕ → Option ℕ
  fn_lookup t name = first_from t.count 0 (λ i. str_eq (t.defs i).name name)

  unfoldable pub fn_lookup_by_idx : FnTable B F → ℤ → Option (FnDef B F)
  fn_lookup_by_idx t (negsuc n) = none
  fn_lookup_by_idx t (pos i) = if leb t.count i then none else some (t.defs i)

  unfoldable pub fn_ref : FnTable B F → ℤ → FnTable B F
  fn_ref t (negsuc n) = t
  fn_ref t (pos i) =
      if ltb i t.count
      then record t {
        defs = update t.defs i (record (t.defs i) { ref_count = inc (t.defs i).ref_count });
      }
      else t

  unfoldable pub fn_unref : FnTable B F → ℤ → FnTable B F
  fn_unref t (negsuc n) = t
  fn_unref t (pos i) =
      let def = t.defs i in
      let r = dec def.ref_count in
      if leb t.count i
      then t
      else if is_positive r || def.is_builtin
      then record t { defs = update t.defs i (record def { ref_count = r }) }
      else record t {
        defs = update t.defs i (record def { ref_count = r; body = none });
        freed = release def.body t.freed;
      }

  -- `fn_table_free`: the first `n` slots, and then the count.
  unfoldable pub free_bodies : ℕ → FnTable B F → FnTable B F
  free_bodies zero t = t
  free_bodies (suc n) t =
      let s = free_bodies n t in
      let def = s.defs n in
      if def.is_builtin then s else record s {
        defs = update s.defs n (record def { body = none });
        freed = release def.body s.freed;
      }

  unfoldable pub fn_table_free : FnTable B F → FnTable B F
  fn_table_free t = record (free_bodies t.count t) { count = 0 }
