-- ===== src/Kmsg/Empty.antt =====
-- kernel/msg.c: a message with an empty argument does not come back.
use base_nexs.Common.{
  ℕ, ◌-◌, ◌^◌, ◌<◌, ◌≡◌, refl, none, List, [], ◌∷◌, ◌++◌, length, NoNul, c_str, c_str-eq,
  take_short, decimal, take, decimal_max, arith,
}
use base_nexs.Kmsg.{KernelMsg, Numbers, buf_size, printed, kmsg_encode, kmsg_decode, decode_text}
use base_nexs.Kmsg.Split.{strtok-append, strtok_only, strtok_skips, strtok_end}
use base_nexs.Kmsg.RoundTrip.{IsReadable, IsField, decimal-IsWord, printed-NoNul, length-printed}

abbrev pub message : List ℕ → List ℕ → List ℕ → ℕ → ℕ → KernelMsg
message verb arg0 arg1 n pid = record {
  verb = verb;
  arg0 = arg0;
  arg1 = arg1;
  n = n;
  sender_pid = pid;
}

module _ (numbers : Numbers) (ok : IsReadable numbers) (verb s : List ℕ) (n pid : ℕ)
    (v : IsField 32 verb) (a : IsField 256 s) (small : n < 2 ^ 64) (p : pid < 2 ^ 32) where
  -- The whole text arrives.
  arrives :
      (m : KernelMsg)
      → NoNul (printed numbers m)
      → length (printed numbers m) < buf_size
      → take (buf_size - 1) (c_str (take (buf_size - 1) (printed numbers m))) ≡ printed numbers m
  arrives m z fits =
      let whole = take_short (buf_size - 1) (printed numbers m) (omega arith) in
      rw (whole, c_str-eq (printed numbers m) z) whole

  empty_first : kmsg_decode numbers (kmsg_encode numbers (message verb [] s n pid)) ≡ none
  unfolding kmsg_decode kmsg_encode decode_text printed
  empty_first =
      let m = message verb [] s n pid in
      let (w, z) = ok.lld_word n small in
      let l = length-printed numbers m in
      let x = ok.lld_length n small in
      let y = decimal_max 9 pid (omega arith) in
      rw
        (
          arrives m (printed-NoNul numbers m (v.1.0) tt (a.1.0) z) (omega arith),
          printed,
          strtok-append verb _ (v.0),
          strtok_skips (s ++ (58 ∷ (numbers.print_lld n ++ (58 ∷ decimal pid)))),
          strtok-append s _ (a.0),
          strtok-append (numbers.print_lld n) _ w,
          strtok_only (decimal pid) (decimal-IsWord pid),
          strtok_end,
        )
        refl

  empty_second : kmsg_decode numbers (kmsg_encode numbers (message verb s [] n pid)) ≡ none
  unfolding kmsg_decode kmsg_encode decode_text printed
  empty_second =
      let m = message verb s [] n pid in
      let (w, z) = ok.lld_word n small in
      let l = length-printed numbers m in
      let x = ok.lld_length n small in
      let y = decimal_max 9 pid (omega arith) in
      rw
        (
          arrives m (printed-NoNul numbers m (v.1.0) (a.1.0) tt z) (omega arith),
          printed,
          strtok-append verb _ (v.0),
          strtok-append s _ (a.0),
          strtok_skips (numbers.print_lld n ++ (58 ∷ decimal pid)),
          strtok-append (numbers.print_lld n) _ w,
          strtok_only (decimal pid) (decimal-IsWord pid),
          strtok_end,
        )
        refl

  -- `strtok` never finds an empty word: a message whose first or second argument is empty, and which could be
  -- carried otherwise, is refused when it is decoded.
  pub kmsg_decode-empty :
      (kmsg_decode numbers (kmsg_encode numbers (message verb [] s n pid)) ≡ none)
      × (kmsg_decode numbers (kmsg_encode numbers (message verb s [] n pid)) ≡ none)
  kmsg_decode-empty = (empty_first, empty_second)
