-- ===== src/Wire.antt =====
-- registry/reg_ipc.c: the form in which a value goes through a pipe. A pipe is the list of the bytes in
-- it. What a pipe takes of the bytes that are written is in Ipc, and a read that finds too few bytes meets the end of the pipe.
pub mod Header
pub mod RoundTrip
mod Tests
use base_nexs.Common.{
  ℕ, zero, suc, ◌+◌, ◌*◌, ◌/◌, ◌%◌, ◌^◌, Bool, true, false, not, Option, none, some, List, [], ◌∷◌,
  ◌++◌, ◌==◌, if◌then◌else◌, length, c_str,
}
use base_nexs.Value.{
  Value, Values, nil, int, float, str, arr, fn, err, bool, ref, ptr, null_str, null_ref, null_ptr,
  none_left, item, type_of, ival, size,
}

-- `le_write64` and `le_write32`, for 8 and 4 bytes.
unfoldable pub le_write : ℕ → ℕ → List ℕ
le_write zero v = []
le_write (suc n) v = v % 256 ∷ le_write n (v / 256)

-- `le_read64` and `le_read32`: from the last byte back, in a word of `word` values.
unfoldable pub le_read : ℕ → List ℕ → ℕ
le_read word [] = 0
le_read word (b ∷ bs) = le_read word bs * 256 % word + b

-- `pipe_read_all`: so many bytes and what is left, or `none` at the end of the pipe.
unfoldable pub pipe_read_all : ℕ → List ℕ → Option (List ℕ × List ℕ)
pipe_read_all zero pipe = some ([], pipe)
pipe_read_all (suc n) [] = none
pipe_read_all (suc n) (b ∷ pipe) = elim (pipe_read_all n pipe) [
  | none ↦ none
  | some (bs, rest) ↦ some (b ∷ bs, rest)
]

-- The field `fval`.
abbrev pub fval : Value → ℕ
fval (float f) = f
fval v = 0

-- `str_data`
abbrev pub str_data : Value → List ℕ
str_data (str s) = s
str_data (ref s) = s
str_data (ptr s) = s
str_data (err c m) = m
str_data v = []

-- `arr_len`
abbrev pub arr_len : Value → ℕ
arr_len (arr xs) = size xs % 2 ^ 32
arr_len v = 0

-- All that goes before the items of an array.
unfoldable pub header : Value → List ℕ
header v =
    type_of v
    ∷ (le_write 8 (ival v)
        ++ (le_write 8 (fval v)
            ++ (le_write 4 (length (str_data v) % 2 ^ 32)
                ++ (str_data v ++ le_write 4 (arr_len v)))))

-- The bytes that `pipe_serialize_value` writes, and those of the first `n` items.
unfoldable mutual
  pub pipe_serialize_value : Value → List ℕ
  pipe_serialize_value nil = header nil
  pipe_serialize_value (int n) = header (int n)
  pipe_serialize_value (float f) = header (float f)
  pipe_serialize_value (str s) = header (str s)
  pipe_serialize_value (arr xs) = header (arr xs) ++ serialize_items (arr_len (arr xs)) xs
  pipe_serialize_value (fn i) = header (fn i)
  pipe_serialize_value (err c m) = header (err c m)
  pipe_serialize_value (bool b) = header (bool b)
  pipe_serialize_value (ref p) = header (ref p)
  pipe_serialize_value (ptr p) = header (ptr p)
  pipe_serialize_value null_str = header null_str
  pipe_serialize_value null_ref = header null_ref
  pipe_serialize_value null_ptr = header null_ptr

  pub serialize_items : ℕ → Values → List ℕ
  serialize_items n none_left = []
  serialize_items zero (item v vs) = []
  serialize_items (suc n) (item v vs) = pipe_serialize_value v ++ serialize_items n vs

-- What is read before the value is built. The text is `none` where `str_buf` is NULL.
pub record Parts : Type 0 where
  pub type_byte : ℕ
  pub ival : ℕ
  pub fval : ℕ
  pub str_buf : Option (List ℕ)
  pub arr_len : ℕ

pub data Field : Type 0 where
  type_field ival_field fval_field str_len_field str_data_field arr_len_field : Field

-- What is read of a value, as the error names it.
abbrev pub field_name : Field → List ℕ
field_name type_field = 116 ∷ 121 ∷ 112 ∷ 101 ∷ []
field_name ival_field = 105 ∷ 118 ∷ 97 ∷ 108 ∷ []
field_name fval_field = 102 ∷ 118 ∷ 97 ∷ 108 ∷ []
field_name str_len_field = 115 ∷ 116 ∷ 114 ∷ 95 ∷ 108 ∷ 101 ∷ 110 ∷ []
field_name str_data_field = 115 ∷ 116 ∷ 114 ∷ 95 ∷ 100 ∷ 97 ∷ 116 ∷ 97 ∷ []
field_name arr_len_field = 97 ∷ 114 ∷ 114 ∷ 95 ∷ 108 ∷ 101 ∷ 110 ∷ []

-- "pipe_recv: read type failed", and so on.
abbrev pub read_failed : Field → List ℕ
read_failed field =
    (112 ∷ 105 ∷ 112 ∷ 101 ∷ 95 ∷ 114 ∷ 101 ∷ 99 ∷ 118 ∷ 58 ∷ 32 ∷ 114 ∷ 101 ∷ 97 ∷ 100 ∷ 32 ∷ [])
    ++ (field_name field ++ (32 ∷ 102 ∷ 97 ∷ 105 ∷ 108 ∷ 101 ∷ 100 ∷ []))

-- The parts and what is left of the pipe, or the field that could not be read.
pub data Parsed : Type 0 where
  failed : Field → Parsed
  parsed : Parts → List ℕ → Parsed

abbrev pub str_buf_of : List ℕ → Option (List ℕ)
str_buf_of [] = none
str_buf_of (c ∷ s) = some (c ∷ s)

unfoldable pub read_parts : List ℕ → Parsed
read_parts pipe = elim (pipe_read_all 1 pipe) [
  | none ↦ failed type_field
  | some (type_buf, pipe₁) ↦ elim (pipe_read_all 8 pipe₁) [
    | none ↦ failed ival_field
    | some (ibuf, pipe₂) ↦ elim (pipe_read_all 8 pipe₂) [
      | none ↦ failed fval_field
      | some (fbuf, pipe₃) ↦ elim (pipe_read_all 4 pipe₃) [
        | none ↦ failed str_len_field
        | some (slbuf, pipe₄) ↦ elim (pipe_read_all (le_read (2 ^ 32) slbuf) pipe₄) [
          | none ↦ failed str_data_field
          | some (text, pipe₅) ↦ elim (pipe_read_all 4 pipe₅) [
            | none ↦ failed arr_len_field
            | some (albuf, pipe₆) ↦
                parsed
                  (record {
                    type_byte = le_read 256 type_buf;
                    ival = le_read (2 ^ 64) ibuf;
                    fval = le_read (2 ^ 64) fbuf;
                    str_buf = str_buf_of text;
                    arr_len = le_read (2 ^ 32) albuf;
                  })
                  pipe₆
          ]
        ]
      ]
    ]
  ]
]

abbrev pub text_or : List ℕ → Option (List ℕ) → List ℕ
text_or other none = other
text_or other (some s) = c_str s

-- `(int)ival` as 32 bits.
abbrev pub to_int : ℕ → ℕ
to_int n = n % 2 ^ 32

-- The value of every type but TYPE_ARR.
unfoldable pub build : Parts → Value
build p =
    if p.type_byte == 0
    then nil
    else if p.type_byte == 1
    then int p.ival
    else if p.type_byte == 2
    then float p.fval
    else if p.type_byte == 7
    then bool (not (to_int p.ival == 0))
    else if p.type_byte == 5
    then fn p.ival
    else if p.type_byte == 3
    then str (text_or [] p.str_buf)
    else if p.type_byte == 8
    then ref (text_or (47 ∷ []) p.str_buf)
    else if p.type_byte == 9
    then ptr (text_or (47 ∷ []) p.str_buf)
    else if p.type_byte == 6
    then err (to_int p.ival) (text_or [] p.str_buf)
    else err 99 (
        112 ∷ 105 ∷ 112 ∷ 101 ∷ 95 ∷ 114 ∷ 101 ∷ 99 ∷ 118 ∷ 58 ∷ 32 ∷ 117 ∷ 110 ∷ 107 ∷ 110 ∷ 111
        ∷ 119 ∷ 110 ∷ 32 ∷ 116 ∷ 121 ∷ 112 ∷ 101 ∷ [])

-- The loop over the items. `read_item` reads one.
unfoldable pub read_items :
    (List ℕ → Option (Value × List ℕ)) → ℕ → List ℕ → Option (Values × List ℕ)
read_items read_item zero pipe = some (none_left, pipe)
read_items read_item (suc n) pipe = elim (read_item pipe) [
  | none ↦ none
  | some (v, rest) ↦ elim (read_items read_item n rest) [
    | none ↦ none
    | some (vs, rest') ↦ some (item v vs, rest')
  ]
]

-- `fuel` bounds the depth of arrays in arrays; `none` only if it runs out.
unfoldable pub pipe_deserialize_value : ℕ → List ℕ → Option (Value × List ℕ)
pipe_deserialize_value zero pipe = none
pipe_deserialize_value (suc fuel) pipe = elim (read_parts pipe) [
  | failed field ↦ some (err 99 (read_failed field), [])
  | parsed p rest ↦
      if p.type_byte == 4
      then elim (read_items (pipe_deserialize_value fuel) p.arr_len rest) [
        | none ↦ none
        | some (vs, rest') ↦ some (arr vs, rest')
      ]
      else some (build p, rest)
]
