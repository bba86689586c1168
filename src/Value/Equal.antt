-- ===== src/Value/Equal.antt =====
-- What `val_equal` decides.
use base_nexs.Common.{
  ℕ, ◌≡◌, ◌↔◌, refl, ap, Bool, true, false, ◌==◌, arith, ==_iff, str_eq→eq, str_eq_refl,
}
use mathlib.Core.Path.{subst}
use base_nexs.Value.{
  Value, nil, int, float, str, arr, fn, err, bool, ref, ptr, null_str, null_ref, null_ptr, ival,
  val_equal,
}

-- The types that `val_equal` compares by what they hold, floats apart.
abbrev pub IsPlain : Value → Type 0
IsPlain nil = Unit
IsPlain (int n) = Unit
IsPlain (bool b) = Unit
IsPlain (str s) = Unit
IsPlain (ptr s) = Unit
IsPlain null_str = Unit
IsPlain null_ptr = Unit
IsPlain v = ⊥

same_bool : (b c : Bool) → (ival (bool b) == ival (bool c)) ≡ true → b ≡ c
same_bool true true e = refl
same_bool false false e = refl
same_bool true false e = cc
same_bool false true e = cc

val_equal_sound :
    (same_float : ℕ → ℕ → Bool) (v w : Value) → IsPlain v → val_equal same_float v w ≡ true → v ≡ w
unfolding val_equal
val_equal_sound q nil nil p e = refl
val_equal_sound q (bool b) (bool c) p e = ap bool (same_bool b c e)
val_equal_sound q (int m) (int n) p e = ap int ((==_iff m n).0 e)
val_equal_sound q (str s) (str t) p e = ap str (str_eq→eq s t e)
val_equal_sound q (ptr s) (ptr t) p e = ap ptr (str_eq→eq s t e)
val_equal_sound q null_str null_str p e = refl
val_equal_sound q null_ptr null_ptr p e = refl
val_equal_sound q v w p e = ground arith

val_equal_refl :
    (same_float : ℕ → ℕ → Bool) (v : Value) → IsPlain v → val_equal same_float v v ≡ true
unfolding val_equal
val_equal_refl q nil p = refl
val_equal_refl q (bool b) p = (==_iff (ival (bool b)) (ival (bool b))).1 refl
val_equal_refl q (int m) p = (==_iff m m).1 refl
val_equal_refl q (str s) p = str_eq_refl s
val_equal_refl q (ptr s) p = str_eq_refl s
val_equal_refl q null_str p = refl
val_equal_refl q null_ptr p = refl
val_equal_refl q null_ref p = absurd p
val_equal_refl q (float f) p = absurd p
val_equal_refl q (arr xs) p = absurd p
val_equal_refl q (fn i) p = absurd p
val_equal_refl q (err c m) p = absurd p
val_equal_refl q (ref s) p = absurd p

-- For a nil, integer, Boolean, string or pointer on the left, its text NULL or not, `val_equal` answers true just if the values
-- are the same, whatever the comparison of floats is.
pub val_equal_iff :
    (same_float : ℕ → ℕ → Bool) (v w : Value)
    → IsPlain v
    → (val_equal same_float v w ≡ true) ↔ (v ≡ w)
val_equal_iff q v w p = (
  λ e. val_equal_sound q v w p e,
  λ e. subst (λ x. val_equal q v x ≡ true) e (val_equal_refl q v p),
)
