-- ===== src/Value.antt =====
-- core/include/nexs_value.h and core/value.c: the values that the constructors build, and their comparison.
-- A field that a type does not use is 0 or NULL. A text or path that is NULL, as `val_str(NULL)` leaves it, is a case
-- of its own; an error's message and an array are there. An integer is its 64 bits, a float its IEEE bits, an
-- error's code its 32 bits; what the source asks of floats is an argument.
mod Equal
mod Tests
use base_nexs.Common.{
  ℕ, zero, suc, ◌+◌, Bool, true, false, not, ◌&&◌, List, [], ◌∷◌, ◌==◌, if◌then◌else◌, str_eq,
}

-- `ValueType`, `Value` and the items of a `DynArray`.
mutual
  pub data Value : Type 0 where
    nil : Value
    int float : ℕ → Value
    str : List ℕ → Value
    arr : Values → Value
    fn : ℕ → Value
    err : ℕ → List ℕ → Value
    bool : Bool → Value
    ref ptr : List ℕ → Value
    null_str null_ref null_ptr : Value

  pub data Values : Type 0 where
    none_left : Values
    item : Value → Values → Values

abbrev pub type_of : Value → ℕ
type_of nil = 0
type_of (int n) = 1
type_of (float f) = 2
type_of (str s) = 3
type_of (arr xs) = 4
type_of (fn i) = 5
type_of (err c m) = 6
type_of (bool b) = 7
type_of (ref p) = 8
type_of (ptr p) = 9
type_of null_str = 3
type_of null_ref = 8
type_of null_ptr = 9

-- The field `ival`.
abbrev pub ival : Value → ℕ
ival (int n) = n
ival (fn i) = i
ival (bool b) = if b then 1 else 0
ival v = 0

-- `arr->size`
abbrev pub size : Values → ℕ
size none_left = 0
size (item v vs) = suc (size vs)

-- `not_zero f` is `f != 0.0`.
unfoldable pub val_is_truthy : (ℕ → Bool) → Value → Bool
val_is_truthy not_zero nil = false
val_is_truthy not_zero (bool b) = not (ival (bool b) == 0)
val_is_truthy not_zero (int n) = not (n == 0)
val_is_truthy not_zero (float f) = not_zero f
val_is_truthy not_zero (str []) = false
val_is_truthy not_zero (str (c ∷ s)) = not (c == 0)
val_is_truthy not_zero null_str = false
val_is_truthy not_zero (err c m) = false
val_is_truthy not_zero null_ptr = false
val_is_truthy not_zero v = true

-- `same_float f g` is `f == g`. The types are equal in every case below but the last, which is also
-- the one of a NULL and a text.
unfoldable pub val_equal : (ℕ → ℕ → Bool) → Value → Value → Bool
val_equal same_float nil nil = true
val_equal same_float (bool b) (bool c) = ival (bool b) == ival (bool c)
val_equal same_float (int m) (int n) = m == n
val_equal same_float (float f) (float g) = same_float f g
val_equal same_float (str s) (str t) = str_eq s t
val_equal same_float null_str null_str = true
val_equal same_float (ptr s) (ptr t) = str_eq s t
val_equal same_float null_ptr null_ptr = true
val_equal same_float v w = false
