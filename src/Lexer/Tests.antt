-- ===== src/Lexer/Tests.antt =====
-- Runs of the lexer.
use base_nexs.Common.{
  ℕ, ◌≡◌, refl, none, none_ne_some, List, [], ◌∷◌, ◌++◌, c_str, str_eq, read_digits,
}
use native.Mathlib.Omega.{arith}
use base_nexs.Config.{Limits, limits, pool_4kb}
use base_nexs.Lexer.Tokens.{
  TokenKind, keywords, find_keyword, tk_eof, tk_string, tk_ident, tk_regpath, tk_eqeq, tk_int,
  tk_kw_ret, tk_newline,
}
use base_nexs.Lexer.{
  Lexer, Numerals, lexer_init, skip_ws, lex_at, lex_token, lex_word, lex_path, lex_symbol, lex_pair,
  lex_number, number_tok, lexer_next, lexer_peek, make_tok, read_while,
}
use base_nexs.Lexer.Progress.{after, lexer_next-ends}
use base_nexs.Lexer.Peek.{lexer_next-lexer_peek}
use base_nexs.Lexer.Bounds.{Fits, Kept, lexer-Fits}
use base_nexs.Lexer.Strings.{quoted, lexer_next-quoted}

abbrev small : Limits
small = limits pool_4kb

abbrev decimals : Numerals
decimals = record { atoll = λ s. read_digits 0 s; atof = λ s. 0 }

-- "ret a==/b\n-7"
abbrev source : List ℕ
source = 114 ∷ 101 ∷ 116 ∷ 32 ∷ 97 ∷ 61 ∷ 61 ∷ 47 ∷ 98 ∷ 10 ∷ 45 ∷ 55 ∷ []

abbrev start : Lexer
start = lexer_init source

abbrev kind_after : ℕ → TokenKind
kind_after n = ((lexer_next small decimals (after small decimals n start)).1).kind

-- A word, a name, an operator, a path, the end of the line, and a number.
kinds :
    (kind_after 0 ≡ tk_kw_ret)
    × ((kind_after 1 ≡ tk_ident)
        × ((kind_after 2 ≡ tk_eqeq)
            × ((kind_after 3 ≡ tk_regpath)
                × ((kind_after 4 ≡ tk_newline) × (kind_after 5 ≡ tk_int)))))
unfolding lexer_init after lexer_next skip_ws lex_at lex_token lex_word lex_path lex_symbol lex_pair
    lex_number number_tok make_tok read_while find_keyword keywords c_str str_eq
kinds = (refl, (refl, (refl, (refl, (refl, refl)))))

lexer_next-ends_example :
    let k = lexer_next small decimals (after small decimals 12 start) in
    ((k.0).rest ≡ []) × ((k.1).kind ≡ tk_eof)
unfolding lexer_init c_str
lexer_next-ends_example = lexer_next-ends small decimals 12 start refl (omega arith)

lexer_next-lexer_peek_example :
    let p = lexer_peek small decimals start in
    (lexer_next small decimals (p.0) ≡ lexer_next small decimals start)
    × ((p.1 ≡ (lexer_next small decimals start).1) × (lexer_peek small decimals (p.0) ≡ p))
lexer_next-lexer_peek_example = lexer_next-lexer_peek small decimals start

lexer-Fits_example :
    (Fits small ((lexer_next small decimals start).1)
      × Kept small ((lexer_next small decimals start).0))
    × (Fits small ((lexer_peek small decimals start).1)
        × Kept small ((lexer_peek small decimals start).0))
unfolding lexer_init
lexer-Fits_example =
    lexer-Fits small (omega arith) decimals start (λ t e. absurd (none_ne_some t e))

-- a, a quote, a backslash, b
lexer_next-quoted_example :
    lexer_next small decimals (record {
      rest = 34 ∷ quoted (97 ∷ 34 ∷ 92 ∷ 98 ∷ []) ++ (34 ∷ 43 ∷ []);
      line = 3;
      col = 1;
      peeked = none;
    })
    ≡ (
      record { rest = 43 ∷ []; line = 3; col = 1; peeked = none },
      record { kind = tk_string; text = 97 ∷ 34 ∷ 92 ∷ 98 ∷ []; ival = 0; fval = 0; line = 3 },
    )
lexer_next-quoted_example =
    lexer_next-quoted small decimals (97 ∷ 34 ∷ 92 ∷ 98 ∷ []) (43 ∷ []) 3 1
      (omega arith, (omega arith, (omega arith, (omega arith, tt)))) (omega arith) (omega arith)
