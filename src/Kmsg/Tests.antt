-- ===== src/Kmsg/Tests.antt =====
-- Runs of the encoding, with a C library that prints and reads decimal numerals.
use base_nexs.Common.{
  ℕ, ◌-◌, ◌^◌, ◌≡◌, refl, ◌∙◌, none, some, List, [], ◌∷◌, ltb, ◌==◌, if◌then◌else◌, lt→ltb, le→ltb,
  ne→==, decimal, Digits, decimal-Digits, read_digits, read-decimal, decimal_max, arith,
}
use native.Mathlib.Decide.{dec_lt}
use base_nexs.Kmsg.{KernelMsg, Numbers, kmsg_encode, kmsg_decode}
use base_nexs.Kmsg.RoundTrip.{
  IsReadable, IsField, decimal-IsWord, decimal-NoNul, kmsg_decode-kmsg_encode,
}
use base_nexs.Kmsg.Empty.{message, kmsg_decode-empty}

print_lld : ℕ → List ℕ
print_lld n = if ltb n (2 ^ 63) then decimal n else 45 ∷ decimal (2 ^ 64 - n)

atoll : List ℕ → ℕ
atoll [] = 0
atoll (c ∷ s) = if c == 45 then 2 ^ 64 - read_digits 0 s else read_digits 0 (c ∷ s)

abbrev signed : Numbers
signed = record { print_lld = print_lld; atoll = atoll; atoi = read_digits 0 }

atoll-Digits : (s : List ℕ) → Digits s → atoll s ≡ read_digits 0 s
unfolding atoll read_digits
atoll-Digits [] h = refl
atoll-Digits (c ∷ s) h = rw (ne→== c 45 (λ e. omega arith)) refl

signed-IsReadable : IsReadable signed
unfolding print_lld atoll
signed-IsReadable = record {
  lld_word = λ n h. elim (dec_lt n (2 ^ 63)) [
    | yes g ↦ rw (lt→ltb n (2 ^ 63) g) (decimal-IsWord n, decimal-NoNul n)
    | no g ↦
        let (l, w) = decimal-IsWord (2 ^ 64 - n) in
        rw (le→ltb n (2 ^ 63) (omega arith))
          ((omega arith, (λ e. omega arith, w)), (λ e. omega arith, decimal-NoNul (2 ^ 64 - n)))
  ];
  lld_length = λ n h. elim (dec_lt n (2 ^ 63)) [
    | yes g ↦ rw (lt→ltb n (2 ^ 63) g) (decimal_max 19 n (omega arith))
    | no g ↦
        let x = decimal_max 18 (2 ^ 64 - n) (omega arith) in
        rw (le→ltb n (2 ^ 63) (omega arith)) (omega arith)
  ];
  atoll_reads = λ n h. elim (dec_lt n (2 ^ 63)) [
    | yes g ↦
        rw (lt→ltb n (2 ^ 63) g) (atoll-Digits (decimal n) (decimal-Digits n) ∙ read-decimal n)
    | no g ↦ rw (le→ltb n (2 ^ 63) (omega arith), atoll, read-decimal (2 ^ 64 - n)) (omega arith)
  ];
  atoi_reads = λ n h. read-decimal n;
}

-- open:/a:r with 2 from process 7
abbrev open_call : KernelMsg
open_call = message (111 ∷ 112 ∷ 101 ∷ 110 ∷ []) (47 ∷ 97 ∷ []) (114 ∷ []) 2 7

verb : IsField 32 (111 ∷ 112 ∷ 101 ∷ 110 ∷ [])
verb = (
  (omega arith, (λ e. omega arith, (λ e. omega arith, (λ e. omega arith, (λ e. omega arith, tt))))),
  ((λ e. omega arith, (λ e. omega arith, (λ e. omega arith, (λ e. omega arith, tt)))), omega arith),
)

path : IsField 256 (47 ∷ 97 ∷ [])
path = (
  (omega arith, (λ e. omega arith, (λ e. omega arith, tt))),
  ((λ e. omega arith, (λ e. omega arith, tt)), omega arith),
)

mode : IsField 256 (114 ∷ [])
mode = ((omega arith, (λ e. omega arith, tt)), ((λ e. omega arith, tt), omega arith))

kmsg_decode-kmsg_encode_example : kmsg_decode signed (kmsg_encode signed open_call) ≡ some open_call
kmsg_decode-kmsg_encode_example =
    kmsg_decode-kmsg_encode signed open_call signed-IsReadable verb path mode (omega arith)
      (omega arith)

kmsg_decode-empty_example :
    (kmsg_decode signed
        (kmsg_encode signed (message (111 ∷ 112 ∷ 101 ∷ 110 ∷ []) [] (47 ∷ 97 ∷ []) 2 7))
      ≡ none)
    × (kmsg_decode signed
          (kmsg_encode signed (message (111 ∷ 112 ∷ 101 ∷ 110 ∷ []) (47 ∷ 97 ∷ []) [] 2 7))
        ≡ none)
kmsg_decode-empty_example =
    kmsg_decode-empty signed signed-IsReadable (111 ∷ 112 ∷ 101 ∷ 110 ∷ []) (47 ∷ 97 ∷ []) 2 7 verb
      path (omega arith) (omega arith)
