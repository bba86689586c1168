-- ===== src/Lexer/Progress.antt =====
-- lang/lexer.c: the lexer moves on, and so its callers' loops end.
use base_nexs.Common.{
  ℕ, zero, suc, ◌+◌, ◌≤◌, ◌<◌, ◌≡◌, ap, refl, ◌-◌, ◌⊎◌, inl, inr, Bool, true, false, none, List, [],
  ◌∷◌, ◌==◌, length, Option-cases,
}
use native.Mathlib.Omega.{arith}
use base_nexs.Config.{Limits}
use base_nexs.Lexer.Tokens.{Token, TokenKind, tk_eof}
use base_nexs.Lexer.Branches.{either, on_tokens, on_symbols}
use base_nexs.Lexer.{
  is_path, is_numeric, is_word, Lexer, Numerals, skip_ws, string_char, read_string, close_string,
  read_while, lex_string, lex_number, lex_path, lex_word, lex_pair, lex_unknown, lex_double,
  lex_token, lex_at, lexer_next, make_tok,
}

length-skip_ws :
    (comment : Bool) (cs : List ℕ) (col : ℕ) → length ((skip_ws comment cs col).0) ≤ length cs
unfolding skip_ws
length-skip_ws comment [] col = omega arith
length-skip_ws true (c ∷ cs) col = let x = length-skip_ws true cs col in ground arith
length-skip_ws false (c ∷ cs) col =
    let x = length-skip_ws true cs col in let y = length-skip_ws false cs (col + 1) in ground arith

length-string_char : (c : ℕ) (cs : List ℕ) → length ((string_char c cs).1) ≤ length cs
unfolding string_char
length-string_char c [] = omega arith
length-string_char c (d ∷ ds) = ground arith

length-read_string : (room : ℕ) (cs : List ℕ) → length ((read_string room cs).1) ≤ length cs
unfolding read_string
length-read_string zero cs = omega arith
length-read_string (suc room) [] = omega arith
length-read_string (suc room) (c ∷ cs) =
    let x = length-string_char c cs in
    let y = length-read_string room ((string_char c cs).1) in ground arith

length-close_string : (cs : List ℕ) → length (close_string cs) ≤ length cs
unfolding close_string
length-close_string [] = omega arith
length-close_string (c ∷ cs) = let x = length-close_string cs in ground arith

length-read_while :
    (class : ℕ → Bool) (room : ℕ) (cs : List ℕ) → length ((read_while class room cs).1) ≤ length cs
unfolding read_while
length-read_while class zero cs = omega arith
length-read_while class (suc room) [] = omega arith
length-read_while class (suc room) (c ∷ cs) =
    let x = length-read_while class room cs in ground arith

module _ (l : Limits) where
  length-lex_pair :
      (line c d : ℕ) (both one : TokenKind) (cs : List ℕ)
      → length ((lex_pair l line c d both one cs).1) ≤ length cs
  unfolding lex_pair
  length-lex_pair line c d both one [] = omega arith
  length-lex_pair line c d both one (x ∷ cs) = ground arith

  length-lex_double :
      (line c : ℕ) (both : TokenKind) (cs : List ℕ)
      → length ((lex_double l line c both cs).1) ≤ length cs
  unfolding lex_double lex_unknown
  length-lex_double line c both [] = omega arith
  length-lex_double line c both (x ∷ cs) = ground arith

  length-lex_path : (line : ℕ) (cs : List ℕ) → length ((lex_path l line cs).1) ≤ length cs
  unfolding lex_path
  length-lex_path line cs =
      let x = length-read_while (is_path l) (l.max_str_len - 2) cs in ground arith

  length-lex_string : (line : ℕ) (cs : List ℕ) → length ((lex_string l line cs).1) ≤ length cs
  unfolding lex_string
  length-lex_string line cs =
      let x = length-read_string (l.max_str_len - 1) cs in
      let y = length-close_string ((read_string (l.max_str_len - 1) cs).1) in omega arith

  -- What is left behind a token is no longer than what was behind its first character.
  length-lex_token :
      (numerals : Numerals) (line c : ℕ) (cs : List ℕ)
      → length ((lex_token l numerals line c cs).1) ≤ length cs
  unfolding lex_number lex_word lex_unknown
  length-lex_token numerals line c cs =
      let P : Token × List ℕ → Type 0 = λ t. length (t.1) ≤ length cs in
      on_tokens l P line c cs numerals (length-lex_string line cs)
        (length-read_while (is_numeric l) (l.max_str_len - 2) cs) (length-lex_path line cs)
        (length-read_while is_word (l.max_str_len - 2) cs)
        (on_symbols l P line c cs (λ k. omega arith)
          (λ both one. length-lex_pair line c 61 both one cs)
          (λ both. length-lex_double line c both cs) (omega arith))

  -- Behind the blanks, the end of the text is reported, or the text left gets shorter.
  pub length-lex_at :
      (numerals : Numerals) (cs : List ℕ) (line col : ℕ)
      → let n = lex_at l numerals cs line col in
        (((n.0).rest ≡ []) × (n.1 ≡ make_tok l tk_eof [] line)) ⊎ (length ((n.0).rest) < length cs)
  unfolding lex_at
  length-lex_at numerals [] line col = inl (refl, refl)
  length-lex_at numerals (c ∷ cs) line col = inr (
      either {A = Lexer × Token} (λ n. length ((n.0).rest) < suc (length cs)) (c == 10)
        (omega arith) (let x = length-lex_token numerals line c cs in omega arith))

  peeked-lex_at :
      (numerals : Numerals) (cs : List ℕ) (line col : ℕ)
      → ((lex_at l numerals cs line col).0).peeked ≡ none
  unfolding lex_at
  peeked-lex_at numerals [] line col = refl
  peeked-lex_at numerals (c ∷ cs) line col =
      either {A = Lexer × Token} (λ n. (n.0).peeked ≡ none) (c == 10) refl refl

  pub peeked-lexer_next :
      (numerals : Numerals) (lex : Lexer) → ((lexer_next l numerals lex).0).peeked ≡ none
  unfolding lexer_next
  peeked-lexer_next numerals lex = elim (Option-cases (lex.peeked)) [
    | inl e ↦ rw e (peeked-lex_at numerals _ _ _)
    | inr (t, e) ↦ rw e refl
  ]

  lexer_next-advances :
      (numerals : Numerals) (lex : Lexer)
      → lex.peeked ≡ none
      → let n = lexer_next l numerals lex in
        (((n.0).rest ≡ []) × (n.1 ≡ make_tok l tk_eof [] (lex.line)))
        ⊎ (length ((n.0).rest) < length (lex.rest))
  unfolding lexer_next
  lexer_next-advances numerals lex e =
      let s = skip_ws false (lex.rest) (lex.col) in
      let x = length-skip_ws false (lex.rest) (lex.col) in
      rw e (elim (length-lex_at numerals (s.0) (lex.line) (s.1)) [
        | inl h ↦ inl h
        | inr h ↦ inr (omega arith)
      ])

  -- The lexer after so many calls of `lexer_next`.
  unfoldable pub after : Numerals → ℕ → Lexer → Lexer
  after numerals zero lex = lex
  after numerals (suc n) lex = after numerals n ((lexer_next l numerals lex).0)

  -- With nothing peeked, after as many calls of `lexer_next` as there are characters left, or more, the next one
  -- reports the end of the text, and nothing is left: a loop that asks until then ends.
  pub lexer_next-ends :
      (numerals : Numerals) (n : ℕ) (lex : Lexer)
      → lex.peeked ≡ none
      → length (lex.rest) ≤ n
      → let k = lexer_next l numerals (after numerals n lex) in
        ((k.0).rest ≡ []) × ((k.1).kind ≡ tk_eof)
  unfolding after make_tok
  lexer_next-ends numerals zero lex e h = elim (lexer_next-advances numerals lex e) [
    | inl (r, t) ↦ (r, ap (λ t. t.kind) t)
    | inr g ↦ absurd (omega arith)
  ]
  lexer_next-ends numerals (suc n) lex e h =
      let m = lexer_next l numerals lex in
      lexer_next-ends numerals n (m.0) (peeked-lexer_next numerals lex)
        (elim (lexer_next-advances numerals lex e) [
          | inl (r, t) ↦ rw r (omega arith)
          | inr g ↦ omega arith
        ])
