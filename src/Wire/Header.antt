-- ===== src/Wire/Header.antt =====
-- The header of a value is read back from the pipe that it was written to.
use base_nexs.Common.{
  ℕ, zero, suc, ◌/◌, ◌%◌, ◌^◌, ◌<◌, ◌≡◌, refl, ap, some, List, [], ◌∷◌, ◌++◌, length, arith,
}
use mathlib.Core.List.{append_assoc}
use mathlib.Core.Path.{subst}
use base_nexs.Value.{Value, type_of, ival}
use base_nexs.Wire.{
  le_write, le_read, pipe_read_all, header, read_parts, Parts, parsed, str_data, arr_len, fval,
  str_buf_of,
}

read_all-append : (xs rest : List ℕ) → pipe_read_all (length xs) (xs ++ rest) ≡ some (xs, rest)
unfolding pipe_read_all
read_all-append [] rest = refl
read_all-append (x ∷ xs) rest = rw (read_all-append xs rest)

length-le_write : (n v : ℕ) → length (le_write n v) ≡ n
unfolding le_write
length-le_write zero v = refl
length-le_write (suc n) v = ap suc (length-le_write n (v / 256))

read_word :
    (n v : ℕ) (rest : List ℕ) → pipe_read_all n (le_write n v ++ rest) ≡ some (le_write n v, rest)
read_word n v rest =
    subst (λ m. pipe_read_all m (le_write n v ++ rest) ≡ some (le_write n v, rest))
      (length-le_write n v) (read_all-append (le_write n v) rest)

le_read-le_write4 : (v : ℕ) → v < 2 ^ 32 → le_read (2 ^ 32) (le_write 4 v) ≡ v
unfolding le_read le_write
le_read-le_write4 v h = omega arith

le_read-le_write8 : (v : ℕ) → v < 2 ^ 64 → le_read (2 ^ 64) (le_write 8 v) ≡ v
unfolding le_read le_write
le_read-le_write8 v h = omega arith

-- The parts that are read back from the header of a value.
abbrev pub parts_of : Value → Parts
parts_of v = record {
  type_byte = type_of v;
  ival = ival v;
  fval = fval v;
  str_buf = str_buf_of (str_data v);
  arr_len = arr_len v;
}

pub record Fits (v : Value) : Type 0 where
  pub ival_fits : ival v < 2 ^ 64
  pub fval_fits : fval v < 2 ^ 64
  pub text_fits : length (str_data v) < 2 ^ 32
  pub arr_fits : arr_len v < 2 ^ 32

header_split :
    (v : Value) (rest : List ℕ)
    → header v ++ rest
      ≡ type_of v
        ∷ (le_write 8 (ival v)
            ++ (le_write 8 (fval v)
                ++ (le_write 4 (length (str_data v) % 2 ^ 32)
                    ++ (str_data v ++ (le_write 4 (arr_len v) ++ rest)))))
unfolding header
header_split v rest = rw (
  append_assoc (le_write 8 (ival v)) _ rest,
  append_assoc (le_write 8 (fval v)) _ rest,
  append_assoc (le_write 4 (length (str_data v) % 2 ^ 32)) _ rest,
  append_assoc (str_data v) (le_write 4 (arr_len v)) rest,
)

read_text :
    (s rest : List ℕ)
    → length s < 2 ^ 32
    → pipe_read_all (le_read (2 ^ 32) (le_write 4 (length s % 2 ^ 32))) (s ++ rest) ≡ some (s, rest)
read_text s rest h =
    let e : length s % 2 ^ 32 ≡ length s = omega arith in
    rw (e, le_read-le_write4 (length s) h) (read_all-append s rest)

read_type : (t : ℕ) (rest : List ℕ) → pipe_read_all 1 (t ∷ rest) ≡ some (t ∷ [], rest)
unfolding pipe_read_all
read_type t rest = refl

le_read-byte : (t : ℕ) → le_read 256 (t ∷ []) ≡ t
unfolding le_read
le_read-byte t = omega arith

pub read_parts-header :
    (v : Value) (rest : List ℕ) → Fits v → read_parts (header v ++ rest) ≡ parsed (parts_of v) rest
unfolding read_parts le_read
read_parts-header v rest f = rw (
  header_split v rest,
  read_parts,
  read_type (type_of v) _,
  read_word 8 (ival v) _,
  read_word 8 (fval v) _,
  read_word 4 (length (str_data v) % 2 ^ 32) _,
  read_text (str_data v) _ f.text_fits,
  read_word 4 (arr_len v) rest,
  le_read-byte (type_of v),
  le_read-le_write8 (ival v) f.ival_fits,
  le_read-le_write8 (fval v) f.fval_fits,
  le_read-le_write4 (arr_len v) f.arr_fits,
)
