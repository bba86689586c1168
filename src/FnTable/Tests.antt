-- ===== src/FnTable/Tests.antt =====
-- Runs of the function table.
use base_nexs.Common.{
  ℕ, ◌≤◌, ◌≡◌, ◌⊎◌, refl, false, Option, none, some, [], ◌∷◌, arith, first_from, str_eq,
}
use base_nexs.Config.{limits, pool_4kb}
use base_nexs.Vfs.{pos}
use base_nexs.FnTable.{
  FnTable, fn_register, fn_register_builtin, fn_register_builtin_sig, fn_lookup, fn_unref, appended,
}
use base_nexs.FnTable.Register.{IsRegistered, fn_register-IsRegistered}
use base_nexs.FnTable.Lookup.{found_or, fn_lookup-fn_register}

-- Bodies and C functions are numbers here.
abbrev blank : FnTable ℕ ℕ
blank = record {
  defs = λ _. record {
    name = [];
    params = λ _. [];
    n_params = 0;
    body = none;
    ref_count = pos 0;
    is_builtin = false;
    builtin_fn = none;
    signature = [];
  };
  count = 0;
  freed = [];
}

-- The built-in function "f".
abbrev with_builtin : FnTable ℕ ℕ
with_builtin = (fn_register_builtin (limits pool_4kb) blank (102 ∷ []) 1).0

abbrev shadowed : FnTable ℕ ℕ × Option ℕ
shadowed = fn_register (limits pool_4kb) with_builtin (102 ∷ []) (some 5) (λ _. []) 0

shadowed_index : shadowed ≡ (shadowed.0, some 1)
unfolding fn_register first_from fn_register_builtin fn_register_builtin_sig str_eq
shadowed_index = refl

builtin_first : fn_lookup with_builtin (102 ∷ []) ≡ some 0
unfolding fn_lookup first_from fn_register_builtin fn_register_builtin_sig str_eq
builtin_first = refl

unref_frees : (fn_unref (shadowed.0) (pos 1)).freed ≡ 5 ∷ []
unfolding fn_register first_from fn_register_builtin fn_register_builtin_sig fn_unref str_eq
    appended
unref_frees = refl

fn_register-IsRegistered_example :
    (fn_register (limits pool_4kb) with_builtin (102 ∷ []) (some 5) (λ _. []) 0
        ≡ (with_builtin, none))
      × ((limits pool_4kb).max_fn_defs ≤ with_builtin.count)
    ⊎ ((t' : FnTable ℕ ℕ) × (i : ℕ) × (fn_register
            (limits pool_4kb)
            with_builtin
            (102 ∷ [])
            (some 5)
            (λ _. [])
            0
          ≡ (t', some i))
        × IsRegistered with_builtin t' (102 ∷ []) (some 5) 0 i)
fn_register-IsRegistered_example =
    fn_register-IsRegistered (limits pool_4kb) with_builtin (102 ∷ []) (some 5) (λ _. []) 0
      (omega arith)

fn_lookup-fn_register_example :
    fn_lookup (shadowed.0) (102 ∷ []) ≡ some (found_or (fn_lookup with_builtin (102 ∷ [])) 1)
fn_lookup-fn_register_example =
    fn_lookup-fn_register (limits pool_4kb) with_builtin (102 ∷ []) (some 5) (λ _. []) 0
      (omega arith) (shadowed.0) 1 shadowed_index
