-- ===== src/Kmsg/RoundTrip.antt =====
-- kernel/msg.c: a message that is encoded and decoded.
use base_nexs.Common.{
  ℕ, ◌+◌, ◌-◌, ◌^◌, ◌≤◌, ◌<◌, ◌≡◌, ap, some, List, length, All-append, length-append, NoNul,
  c_str-eq, take_short, decimal, decimal-Digits, length-decimal, decimal_max, All-weaken, arith,
}
use base_nexs.Kmsg.{KernelMsg, Numbers, buf_size, printed, kmsg_encode, kmsg_decode, decode_text}
use base_nexs.Kmsg.Split.{IsWord, strtok-append, strtok_only}

-- What the code relies on: `%lld` prints a word of printable characters without a colon, 20 of them at most, and `atoll` and `atoi` read
-- back what was printed of a number of their type.
pub record IsReadable (numbers : Numbers) : Type 0 where
  pub lld_word : (n : ℕ) → n < 2 ^ 64 → IsWord (numbers.print_lld n) × NoNul (numbers.print_lld n)
  pub lld_length : (n : ℕ) → n < 2 ^ 64 → length (numbers.print_lld n) ≤ 20
  pub atoll_reads : (n : ℕ) → n < 2 ^ 64 → numbers.atoll (numbers.print_lld n) ≡ n
  pub atoi_reads : (n : ℕ) → n < 2 ^ 31 → numbers.atoi (decimal n) ≡ n

-- A text that a field can hold and a message can carry: a word without NUL that fits the array.
abbrev pub IsField : ℕ → List ℕ → Type 0
IsField room s = IsWord s × (NoNul s × (length s < room))

pub decimal-IsWord : (n : ℕ) → IsWord (decimal n)
decimal-IsWord n =
    (length-decimal n, All-weaken _ _ (decimal n) (λ c h. λ e. omega arith) (decimal-Digits n))

pub decimal-NoNul : (n : ℕ) → NoNul (decimal n)
decimal-NoNul n = All-weaken _ _ (decimal n) (λ c h. λ e. omega arith) (decimal-Digits n)

pub printed-NoNul :
    (numbers : Numbers) (m : KernelMsg)
    → NoNul m.verb
    → NoNul m.arg0
    → NoNul m.arg1
    → NoNul (numbers.print_lld m.n)
    → NoNul (printed numbers m)
unfolding printed
printed-NoNul numbers m v a b n = All-append _ m.verb _ v (
  omega arith,
  All-append _ m.arg0 _ a (
    omega arith,
    All-append _ m.arg1 _ b (
      omega arith,
      All-append _ (numbers.print_lld m.n) _ n (omega arith, decimal-NoNul m.sender_pid),
    ),
  ),
)

-- What is printed is decoded, if it fits the buffer.
decode-printed :
    (numbers : Numbers) (m : KernelMsg)
    → IsReadable numbers
    → IsField 32 m.verb
    → IsField 256 m.arg0
    → IsField 256 m.arg1
    → m.n < 2 ^ 64
    → m.sender_pid < 2 ^ 31
    → length (printed numbers m) < buf_size
    → kmsg_decode numbers (kmsg_encode numbers m) ≡ some m
unfolding kmsg_decode kmsg_encode decode_text printed
decode-printed numbers m ok v a b n p fits =
    let (w, z) = ok.lld_word m.n n in
    let text = printed numbers m in
    let whole = take_short (buf_size - 1) text (omega arith) in
    rw
      (
        whole,
        c_str-eq text (printed-NoNul numbers m (v.1.0) (a.1.0) (b.1.0) z),
        whole,
        printed,
        strtok-append m.verb _ (v.0),
        strtok-append m.arg0 _ (a.0),
        strtok-append m.arg1 _ (b.0),
        strtok-append (numbers.print_lld m.n) _ w,
        strtok_only (decimal m.sender_pid) (decimal-IsWord m.sender_pid),
        take_short 31 m.verb (omega arith),
        take_short 255 m.arg0 (omega arith),
        take_short 255 m.arg1 (omega arith),
        ok.atoll_reads m.n n,
        ok.atoi_reads m.sender_pid p,
      )
      (ap (λ x. some (record m { sender_pid = x })) (omega arith))

pub length-printed :
    (numbers : Numbers) (m : KernelMsg)
    → length (printed numbers m)
      ≡ length m.verb
        + (1
            + (length m.arg0
                + (1
                    + (length m.arg1
                        + (1
                            + (length (numbers.print_lld m.n)
                                + (1 + length (decimal m.sender_pid))))))))
unfolding printed
length-printed numbers m =
    rw
      (
        printed,
        length-append m.verb _,
        length-append m.arg0 _,
        length-append m.arg1 _,
        length-append (numbers.print_lld m.n) _,
      )
      (omega arith)

-- A message whose three texts are words without NUL or colon that fit their arrays, whose number is one of 64 bits,
-- and whose sender is below 2 ^ 31, is the same after it is encoded and decoded.
pub kmsg_decode-kmsg_encode :
    (numbers : Numbers) (m : KernelMsg)
    → IsReadable numbers
    → IsField 32 m.verb
    → IsField 256 m.arg0
    → IsField 256 m.arg1
    → m.n < 2 ^ 64
    → m.sender_pid < 2 ^ 31
    → kmsg_decode numbers (kmsg_encode numbers m) ≡ some m
kmsg_decode-kmsg_encode numbers m ok v a b n p =
    let whole = length-printed numbers m in
    let x = ok.lld_length m.n n in
    let y = decimal_max 9 m.sender_pid (omega arith) in
    decode-printed numbers m ok v a b n p (omega arith)
