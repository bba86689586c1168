-- ===== src/Wire/RoundTrip.antt =====
-- A value that is written to a pipe and read back.
use base_nexs.Common.{
  ℕ, zero, suc, ◌%◌, ◌^◌, ◌≤◌, ◌<◌, ◌≡◌, refl, ap, ◌∙◌, true, false, Option, some, List, [], ◌∷◌,
  ◌++◌, ◌==◌, length, c_str-eq, NoNul, arith,
}
use mathlib.Core.List.{append_assoc}
use Prim.Native.Nat.{max}
use base_nexs.Value.{
  Value, Values, nil, int, float, str, arr, fn, err, bool, ref, ptr, null_str, null_ref, null_ptr,
  none_left, item, type_of, ival, size,
}
use base_nexs.Wire.{header, str_data, arr_len, fval, str_buf_of, text_or}
use base_nexs.Wire.{
  build, read_items, pipe_deserialize_value, pipe_serialize_value, serialize_items,
}
use base_nexs.Wire.Header.{Fits, parts_of, read_parts-header}

-- A text as C strings hold it.
abbrev pub IsText : List ℕ → Type 0
IsText s = NoNul s × (length s < 2 ^ 32)

-- The values that go through a pipe: integers of 64 bits, and texts and arrays whose length fits 32 bits.
abbrev mutual
  pub IsSendable : Value → Type 0
  IsSendable nil = Unit
  IsSendable (int n) = n < 2 ^ 64
  IsSendable (float f) = f < 2 ^ 64
  IsSendable (str s) = IsText s
  IsSendable (arr xs) = (size xs < 2 ^ 32) × AreSendable xs
  IsSendable (fn i) = i < 2 ^ 64
  IsSendable (err c m) = IsText m
  IsSendable (bool b) = Unit
  IsSendable (ref p) = IsText p
  IsSendable (ptr p) = IsText p
  IsSendable null_str = Unit
  IsSendable null_ref = Unit
  IsSendable null_ptr = Unit

  pub AreSendable : Values → Type 0
  AreSendable none_left = Unit
  AreSendable (item v vs) = IsSendable v × AreSendable vs

abbrev pub or_root : List ℕ → List ℕ
or_root [] = 47 ∷ []
or_root (c ∷ p) = c ∷ p

-- What arrives: an error has lost its code, and a reference or pointer to nowhere is one to the root, and a
-- NULL text is empty.
abbrev mutual
  pub received : Value → Value
  received nil = nil
  received (int n) = int n
  received (float f) = float f
  received (str s) = str s
  received (arr xs) = arr (received_items xs)
  received (fn i) = fn i
  received (err c m) = err 0 m
  received (bool b) = bool b
  received (ref p) = ref (or_root p)
  received (ptr p) = ptr (or_root p)
  received null_str = str []
  received null_ref = ref (47 ∷ [])
  received null_ptr = ptr (47 ∷ [])

  pub received_items : Values → Values
  received_items none_left = none_left
  received_items (item v vs) = item (received v) (received_items vs)

-- How deep arrays stand in arrays.
abbrev mutual
  pub depth : Value → ℕ
  depth nil = 0
  depth (int n) = 0
  depth (float f) = 0
  depth (str s) = 0
  depth (arr xs) = suc (depth_items xs)
  depth (fn i) = 0
  depth (err c m) = 0
  depth (bool b) = 0
  depth (ref p) = 0
  depth (ptr p) = 0
  depth null_str = 0
  depth null_ref = 0
  depth null_ptr = 0

  pub depth_items : Values → ℕ
  depth_items none_left = 0
  depth_items (item v vs) = max (depth v) (depth_items vs)

text_of : (s : List ℕ) → NoNul s → text_or [] (str_buf_of s) ≡ s
text_of [] h = refl
text_of (c ∷ s) h = c_str-eq (c ∷ s) h

path_of : (s : List ℕ) → NoNul s → text_or (47 ∷ []) (str_buf_of s) ≡ or_root s
path_of [] h = refl
path_of (c ∷ s) h = c_str-eq (c ∷ s) h

scalar :
    (fuel : ℕ) (v : Value) (rest : List ℕ)
    → Fits v
    → (type_of v == 4) ≡ false
    → pipe_deserialize_value (suc fuel) (header v ++ rest) ≡ some (build (parts_of v), rest)
unfolding pipe_deserialize_value
scalar fuel v rest f e = rw (read_parts-header v rest f, pipe_deserialize_value, e)

scalar_as :
    (fuel : ℕ) (v w : Value) (rest : List ℕ)
    → Fits v
    → (type_of v == 4) ≡ false
    → build (parts_of v) ≡ w
    → pipe_deserialize_value (suc fuel) (header v ++ rest) ≡ some (w, rest)
scalar_as fuel v w rest f e h = scalar fuel v rest f e ∙ ap (λ x. some (x, rest)) h

array :
    (fuel : ℕ) (xs ys : Values) (rest : List ℕ)
    → size xs < 2 ^ 32
    → read_items (pipe_deserialize_value fuel) (size xs) (serialize_items (size xs) xs ++ rest)
      ≡ some (ys, rest)
    → pipe_deserialize_value (suc fuel) (pipe_serialize_value (arr xs) ++ rest)
      ≡ some (arr ys, rest)
unfolding pipe_deserialize_value pipe_serialize_value
array fuel xs ys rest h e =
    let f : Fits (arr xs) = record {
      ival_fits = omega arith;
      fval_fits = omega arith;
      text_fits = omega arith;
      arr_fits = omega arith;
    } in
    let w : size xs % 2 ^ 32 ≡ size xs = omega arith in
    rw (
      append_assoc (header (arr xs)) (serialize_items (size xs % 2 ^ 32) xs) rest,
      read_parts-header (arr xs) (serialize_items (size xs % 2 ^ 32) xs ++ rest) f,
      pipe_deserialize_value,
      w,
      e,
    )

one_more :
    (read_item : List ℕ → Option (Value × List ℕ)) (n : ℕ) (pipe rest rest' : List ℕ) (v : Value)
    (vs : Values)
    → read_item pipe ≡ some (v, rest)
    → read_items read_item n rest ≡ some (vs, rest')
    → read_items read_item (suc n) pipe ≡ some (item v vs, rest')
unfolding read_items
one_more read_item n pipe rest rest' v vs e f = rw (read_items, e, f)

text_Fits :
    (v : Value)
    → ival v < 2 ^ 64
    → fval v < 2 ^ 64
    → arr_len v ≡ 0
    → length (str_data v) < 2 ^ 32
    → Fits v
text_Fits v a b c d = record { ival_fits = a; fval_fits = b; text_fits = d; arr_fits = omega arith }

mutual
  unfolding pipe_serialize_value build read_items

  value_back :
      (fuel : ℕ) (v : Value) (rest : List ℕ)
      → IsSendable v
      → depth v ≤ fuel
      → pipe_deserialize_value (suc fuel) (pipe_serialize_value v ++ rest) ≡ some (received v, rest)
  value_back fuel nil rest s h =
      scalar_as fuel nil nil rest (text_Fits nil (omega arith) (omega arith) refl (omega arith))
        refl refl
  value_back fuel (int n) rest s h =
      scalar_as fuel (int n) (int n) rest (text_Fits (int n) s (omega arith) refl (omega arith))
        refl refl
  value_back fuel (float f) rest s h =
      scalar_as fuel (float f) (float f) rest
        (text_Fits (float f) (omega arith) s refl (omega arith)) refl refl
  value_back fuel (fn i) rest s h =
      scalar_as fuel (fn i) (fn i) rest (text_Fits (fn i) s (omega arith) refl (omega arith)) refl
        refl
  value_back fuel (bool true) rest s h =
      scalar_as fuel (bool true) (bool true) rest
        (text_Fits (bool true) (omega arith) (omega arith) refl (omega arith)) refl refl
  value_back fuel (bool false) rest s h =
      scalar_as fuel (bool false) (bool false) rest
        (text_Fits (bool false) (omega arith) (omega arith) refl (omega arith)) refl refl
  value_back fuel (str t) rest s h =
      scalar_as fuel (str t) (str t) rest (text_Fits (str t) (omega arith) (omega arith) refl (s.1))
        refl (ap str (text_of t (s.0)))
  value_back fuel (err c m) rest s h =
      scalar_as fuel (err c m) (err 0 m) rest
        (text_Fits (err c m) (omega arith) (omega arith) refl (s.1)) refl
        (ap (err 0) (text_of m (s.0)))
  value_back fuel (ref p) rest s h =
      scalar_as fuel (ref p) (ref (or_root p)) rest
        (text_Fits (ref p) (omega arith) (omega arith) refl (s.1)) refl (ap ref (path_of p (s.0)))
  value_back fuel (ptr p) rest s h =
      scalar_as fuel (ptr p) (ptr (or_root p)) rest
        (text_Fits (ptr p) (omega arith) (omega arith) refl (s.1)) refl (ap ptr (path_of p (s.0)))
  value_back fuel null_str rest s h =
      scalar_as fuel null_str (str []) rest
        (text_Fits null_str (omega arith) (omega arith) refl (omega arith)) refl refl
  value_back fuel null_ref rest s h =
      scalar_as fuel null_ref (ref (47 ∷ [])) rest
        (text_Fits null_ref (omega arith) (omega arith) refl (omega arith)) refl refl
  value_back fuel null_ptr rest s h =
      scalar_as fuel null_ptr (ptr (47 ∷ [])) rest
        (text_Fits null_ptr (omega arith) (omega arith) refl (omega arith)) refl refl
  value_back zero (arr xs) rest s h = absurd (omega arith)
  value_back (suc fuel) (arr xs) rest s h =
      array (suc fuel) xs (received_items xs) rest (s.0)
        (items_back fuel xs rest (s.1) (omega arith))

  items_back :
      (fuel : ℕ) (xs : Values) (rest : List ℕ)
      → AreSendable xs
      → depth_items xs ≤ fuel
      → read_items
          (pipe_deserialize_value (suc fuel))
          (size xs)
          (serialize_items (size xs) xs ++ rest)
        ≡ some (received_items xs, rest)
  items_back fuel none_left rest s h = refl
  items_back fuel (item v vs) rest s h =
      rw (append_assoc (pipe_serialize_value v) (serialize_items (size vs) vs) rest) (
        one_more (pipe_deserialize_value (suc fuel)) (size vs) _
          (serialize_items (size vs) vs ++ rest) rest (received v) (received_items vs)
          (value_back fuel v (serialize_items (size vs) vs ++ rest) (s.0) (omega arith))
          (items_back fuel vs rest (s.1) (omega arith)))

-- A sendable value that is written to a pipe is read back from it, with fuel above its depth, as the value
-- that `received` says, and what follows it in the pipe is left.
pub pipe_deserialize_value-pipe_serialize_value :
    (fuel : ℕ) (v : Value) (rest : List ℕ)
    → IsSendable v
    → depth v < fuel
    → pipe_deserialize_value fuel (pipe_serialize_value v ++ rest) ≡ some (received v, rest)
pipe_deserialize_value-pipe_serialize_value zero v rest s h = absurd (omega arith)
pipe_deserialize_value-pipe_serialize_value (suc fuel) v rest s h =
    value_back fuel v rest s (omega arith)
