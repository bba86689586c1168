-- ===== src/Kmsg.antt =====
-- kernel/msg.c: kernel messages as texts. `atoll` and `atoi` are arguments, and so is what `%lld` prints; a number
-- is its 64 or 32 bits.
pub mod Split
pub mod RoundTrip
pub mod Empty
mod Tests
use base_nexs.Common.{
  ℕ, zero, suc, ◌+◌, ◌-◌, ◌%◌, ◌^◌, Bool, true, false, Option, none, some, List, [], ◌∷◌, ◌++◌,
  ◌==◌, if◌then◌else◌, take, ◌>>=◌, c_str, decimal,
}
use base_nexs.Value.{Value, str}

-- `KernelMsg`
pub record KernelMsg : Type 0 where
  pub verb : List ℕ
  pub arg0 : List ℕ
  pub arg1 : List ℕ
  pub n : ℕ
  pub sender_pid : ℕ

-- What the C library reads and prints of numbers.
pub record Numbers : Type 0 where
  pub print_lld : ℕ → List ℕ
  pub atoll : List ℕ → ℕ
  pub atoi : List ℕ → ℕ

-- The size of `buf` and `tmp`.
abbrev pub buf_size : ℕ
buf_size = 640

-- `strtok` with ":": the separators in front are skipped, and the one behind the word is taken.
unfoldable pub skip_sep : List ℕ → List ℕ
skip_sep [] = []
skip_sep (c ∷ s) = let rest = skip_sep s in if c == 58 then rest else c ∷ s

unfoldable pub read_word : List ℕ → List ℕ × List ℕ
read_word [] = ([], [])
read_word (c ∷ s) = let w = read_word s in if c == 58 then ([], s) else (c ∷ w.0, w.1)

abbrev pub word_of : List ℕ → Option (List ℕ × List ℕ)
word_of [] = none
word_of (c ∷ s) = some (read_word (c ∷ s))

unfoldable pub strtok : List ℕ → Option (List ℕ × List ℕ)
strtok s = word_of (skip_sep s)

module _ (numbers : Numbers) where
  -- What `snprintf` prints, and what of it `buf` has room for.
  unfoldable pub printed : KernelMsg → List ℕ
  printed m =
      m.verb
      ++ (58
          ∷ (m.arg0
              ++ (58 ∷ (m.arg1 ++ (58 ∷ (numbers.print_lld m.n ++ (58 ∷ decimal m.sender_pid)))))))

  unfoldable pub kmsg_encode : KernelMsg → Value
  kmsg_encode m = str (take (buf_size - 1) (printed m))

  -- `none` for -1. The arrays of the result have 32, 256 and 256 characters.
  unfoldable pub decode_text : List ℕ → Option KernelMsg
  decode_text s = do
    (verb, a) ← strtok (take (buf_size - 1) (c_str s))
    (arg0, b) ← strtok a
    (arg1, c) ← strtok b
    (n, d) ← strtok c
    (pid, e) ← strtok d
    some (record {
      verb = take 31 verb;
      arg0 = take 255 arg0;
      arg1 = take 255 arg1;
      n = numbers.atoll n;
      sender_pid = numbers.atoi pid % 2 ^ 32;
    })

  unfoldable pub kmsg_decode : Value → Option KernelMsg
  kmsg_decode (str s) = decode_text s
  kmsg_decode v = none
