-- ===== src/Wire/Tests.antt =====
-- Runs of the pipe format.
use base_nexs.Common.{◌≡◌, refl, some, [], ◌∷◌, ◌++◌, arith}
use base_nexs.Value.{Value, nil, int, str, err, arr, ref, none_left, item}
use base_nexs.Wire.{
  pipe_serialize_value, pipe_deserialize_value, serialize_items, header, le_write, le_read,
  read_parts, pipe_read_all,
}
use base_nexs.Wire.RoundTrip.{IsSendable, received, pipe_deserialize_value-pipe_serialize_value}

-- [5, "hi", an error of code 7, a reference to nowhere]
abbrev message : Value
message =
    arr (
      item (int 5) (item (str (104 ∷ 105 ∷ [])) (item (err 7 (33 ∷ [])) (item (ref []) none_left))))

nil_bytes : pipe_serialize_value nil ≡ 0 ∷ (le_write 24 0)
unfolding pipe_serialize_value header le_write
nil_bytes = refl

cut_short :
    pipe_deserialize_value 1 (1 ∷ 2 ∷ [])
    ≡ some (err 99 (base_nexs.Wire.read_failed base_nexs.Wire.ival_field), [])
unfolding pipe_deserialize_value read_parts pipe_read_all
cut_short = refl

message-IsSendable : IsSendable message
message-IsSendable = (
  omega arith,
  (
    omega arith,
    (
      ((omega arith, (omega arith, tt)), omega arith),
      (((omega arith, tt), omega arith), ((tt, omega arith), tt)),
    ),
  ),
)

pipe_deserialize_value-pipe_serialize_value_example :
    pipe_deserialize_value 2 (pipe_serialize_value message ++ (255 ∷ []))
    ≡ some (received message, 255 ∷ [])
pipe_deserialize_value-pipe_serialize_value_example =
    pipe_deserialize_value-pipe_serialize_value 2 message (255 ∷ []) message-IsSendable
      (omega arith)
