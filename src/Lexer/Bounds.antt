-- ===== src/Lexer/Bounds.antt =====
-- lang/lexer.c: what a token's `text` can hold.
use base_nexs.Common.{
  ℕ, zero, suc, ◌-◌, ◌≤◌, ◌<◌, ◌≡◌, some, List, [], ◌∷◌, take, c_str, length, NoNul, Option-cases,
  eq→==, ne→==, none_ne_some, some_inj, sym, ◌∙◌, inl, inr, ◌==◌,
}
use mathlib.Core.Path.{subst}
use native.Mathlib.Omega.{arith}
use native.Mathlib.Decide.{ℕ_discrete}
use base_nexs.Lexer.Progress.{peeked-lexer_next}
use base_nexs.Lexer.Peek.{peek_empty, peek_full}
use base_nexs.Config.{Limits}
use base_nexs.Lexer.Tokens.{
  Token, TokenKind, tk_newline, tk_eof, tk_regpath, tk_slash, find_keyword, keywords, tk_ident,
}
use base_nexs.Lexer.Branches.{either, on_tokens, on_symbols}
use base_nexs.Lexer.{
  Lexer, Numerals, lex_string, lex_number, lex_path, lex_word, lex_pair, lex_unknown, lex_double,
  lex_token, lex_at, lexer_next, lexer_peek, make_tok, number_tok, read_while, is_word,
}

length-take : (n : ℕ) (xs : List ℕ) → length (take n xs) ≤ n
length-take zero xs = omega arith
length-take (suc n) [] = omega arith
length-take (suc n) (x ∷ xs) = let h = length-take n xs in omega arith

take-NoNul : (n : ℕ) (xs : List ℕ) → NoNul (take n (c_str xs))
unfolding c_str
take-NoNul zero xs = tt
take-NoNul (suc n) [] = tt
take-NoNul (suc n) (x ∷ xs) = elim (ℕ_discrete x 0) [
  | yes e ↦ rw (eq→== x 0 e) tt
  | no ne ↦ rw (ne→== x 0 ne) (ne, take-NoNul n xs)
]

module _ (l : Limits) where
  -- A text of at most `NAME_LEN - 1` characters, none of them NUL: with its NUL it fits the array `text`.
  abbrev pub Fits : Token → Type 0
  Fits t = (length (t.text) < l.name_len) × NoNul (t.text)

  -- What a lexer keeps for `lexer_next` fits too.
  abbrev pub Kept : Lexer → Type 0
  Kept lex = (t : Token) → lex.peeked ≡ some t → Fits t

  module _ (room : 0 < l.name_len) where
    make_tok-Fits : (k : TokenKind) (text : List ℕ) (line : ℕ) → Fits (make_tok l k text line)
    unfolding make_tok
    make_tok-Fits k text line = (
      let x = length-take (l.name_len - 1) (c_str text) in omega arith,
      take-NoNul (l.name_len - 1) text,
    )

    pair-Fits :
        (line c d : ℕ) (both one : TokenKind) (cs : List ℕ)
        → Fits ((lex_pair l line c d both one cs).0)
    unfolding lex_pair
    pair-Fits line c d both one [] = make_tok-Fits one (c ∷ []) line
    pair-Fits line c d both one (x ∷ cs) =
        either {A = Token × List ℕ} (λ t. Fits (t.0)) (x == d)
          (make_tok-Fits both (c ∷ d ∷ []) line) (make_tok-Fits one (c ∷ []) line)

    double-Fits :
        (line c : ℕ) (both : TokenKind) (cs : List ℕ) → Fits ((lex_double l line c both cs).0)
    unfolding lex_double lex_unknown
    double-Fits line c both [] = make_tok-Fits tk_eof _ line
    double-Fits line c both (x ∷ cs) =
        either {A = Token × List ℕ} (λ t. Fits (t.0)) (x == c)
          (make_tok-Fits both (c ∷ c ∷ []) line) (make_tok-Fits tk_eof _ line)

    word-Fits : (line c : ℕ) (cs : List ℕ) → Fits ((lex_word l line c cs).0)
    unfolding lex_word
    word-Fits line c cs =
        let buf = c ∷ (read_while is_word (l.max_str_len - 2) cs).0 in
        elim (Option-cases (find_keyword keywords buf)) [
          | inl e ↦ rw (lex_word, e) (make_tok-Fits tk_ident buf line)
          | inr (k, e) ↦ rw (lex_word, e) (make_tok-Fits k buf line)
        ]

    path-Fits : (line : ℕ) (cs : List ℕ) → Fits ((lex_path l line cs).0)
    unfolding lex_path
    path-Fits line cs =
        either {A = Token × List ℕ} (λ t. Fits (t.0)) _ (make_tok-Fits tk_regpath _ line)
          (make_tok-Fits tk_slash _ line)

    number-Fits :
        (numerals : Numerals) (line c : ℕ) (cs : List ℕ)
        → Fits ((lex_number l numerals line c cs).0)
    unfolding lex_number number_tok
    number-Fits numerals line c cs = make_tok-Fits _ _ line

    token-Fits :
        (numerals : Numerals) (line c : ℕ) (cs : List ℕ) → Fits ((lex_token l numerals line c cs).0)
    unfolding lex_string lex_unknown
    token-Fits numerals line c cs =
        let P : Token × List ℕ → Type 0 = λ t. Fits (t.0) in
        on_tokens l P line c cs numerals (make_tok-Fits _ _ line) (number-Fits numerals line c cs)
          (path-Fits line cs) (word-Fits line c cs)
          (on_symbols l P line c cs (λ k. make_tok-Fits k _ line)
            (λ both one. pair-Fits line c 61 both one cs) (λ both. double-Fits line c both cs)
            (make_tok-Fits tk_eof _ line))

    at-Fits :
        (numerals : Numerals) (cs : List ℕ) (line col : ℕ)
        → Fits ((lex_at l numerals cs line col).1)
    unfolding lex_at
    at-Fits numerals [] line col = make_tok-Fits tk_eof [] line
    at-Fits numerals (c ∷ cs) line col =
        either {A = Lexer × Token} (λ n. Fits (n.1)) (c == 10) (make_tok-Fits tk_newline _ line)
          (token-Fits numerals line c cs)

    next-Fits :
        (numerals : Numerals) (lex : Lexer) → Kept lex → Fits ((lexer_next l numerals lex).1)
    unfolding lexer_next
    next-Fits numerals lex h = elim (Option-cases (lex.peeked)) [
      | inl e ↦ rw (lexer_next, e) (at-Fits numerals _ _ _)
      | inr (t, e) ↦ rw (lexer_next, e) (h t e)
    ]

    peek-Fits :
        (numerals : Numerals) (lex : Lexer)
        → Kept lex
        → Fits ((lexer_peek l numerals lex).1) × Kept ((lexer_peek l numerals lex).0)
    peek-Fits numerals lex h = elim (Option-cases (lex.peeked)) [
      | inl e ↦
          let f = next-Fits numerals lex h in
          rw (peek_empty l numerals lex e) (f, λ t g. subst Fits (some_inj _ _ g) f)
      | inr (t, e) ↦ rw (peek_full l numerals lex t e) (h t e, h)
    ]

    -- Whatever the text, the tokens that `lexer_next` and `lexer_peek` give fit the array `text` of `NAME_LEN`
    -- characters, and so does the token that a lexer keeps after either, if the one it kept before did.
    pub lexer-Fits :
        (numerals : Numerals) (lex : Lexer)
        → Kept lex
        → (Fits ((lexer_next l numerals lex).1) × Kept ((lexer_next l numerals lex).0))
          × (Fits ((lexer_peek l numerals lex).1) × Kept ((lexer_peek l numerals lex).0))
    lexer-Fits numerals lex h = (
      (
        next-Fits numerals lex h,
        λ t e. absurd (none_ne_some t (sym (peeked-lexer_next l numerals lex) ∙ e)),
      ),
      peek-Fits numerals lex h,
    )
