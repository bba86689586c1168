-- ===== src/Lexer/Branches.antt =====
-- lang/lexer.c: the branches of `lexer_next`, one argument for each.
use base_nexs.Common.{
  ℕ, is_digit, Bool, true, false, List, [], ◌∷◌, ◌==◌, ◌||◌, ◌&&◌, if◌then◌else◌,
}
use base_nexs.Config.{Limits}
use base_nexs.Lexer.Tokens.{Token, TokenKind}
use base_nexs.Lexer.{
  Numerals, is_name_start, starts, lex_string, lex_number, lex_path, lex_word, lex_pair,
  lex_unknown, lex_double, lex_symbol, lex_token, make_tok,
}

pub either {ℓ ℓ'} :
    {A : Type ℓ} (P : A → Type ℓ') (b : Bool) {x y : A} → P x → P y → P (if b then x else y)
either P true p q = p
either P false p q = q

module _ (l : Limits) (P : Token × List ℕ → Type 0) (line c : ℕ) (cs : List ℕ) where
  -- What holds of one symbol, of a pair, of a double one and of an unknown one holds of all symbols.
  pub on_symbols :
      ((k : TokenKind) → P (make_tok l k (c ∷ []) line, cs))
      → ((both one : TokenKind) → P (lex_pair l line c 61 both one cs))
      → ((both : TokenKind) → P (lex_double l line c both cs))
      → P (lex_unknown l line c cs)
      → P (lex_symbol l line c cs)
  unfolding lex_symbol
  on_symbols single pair double unknown = either P (c == 43) (single _) (
      either P (c == 45) (single _) (
        either P (c == 42) (single _) (
          either P (c == 37) (single _) (
            either P (c == 46) (single _) (
              either P (c == 91) (single _) (
                either P (c == 93) (single _) (
                  either P (c == 123) (single _) (
                    either P (c == 125) (single _) (
                      either P (c == 40) (single _) (
                        either P (c == 41) (single _) (
                          either P (c == 44) (single _) (
                            either P (c == 61) (pair _ _) (
                              either P (c == 33) (pair _ _) (
                                either P (c == 60) (pair _ _) (
                                  either P (c == 62) (pair _ _) (
                                    either P (c == 38) (double _)
                                      (either P (c == 124) (double _) unknown)))))))))))))))))

  -- And of all tokens, with the strings, numbers, paths and words.
  pub on_tokens :
      (numerals : Numerals)
      → P (lex_string l line cs)
      → P (lex_number l numerals line c cs)
      → P (lex_path l line cs)
      → P (lex_word l line c cs)
      → P (lex_symbol l line c cs)
      → P (lex_token l numerals line c cs)
  unfolding lex_token
  on_tokens numerals string number path word symbol = either P (c == 34) string (
      either P (is_digit c || (c == 45 && starts is_digit cs)) number
        (either P (c == 47) path (either P (is_name_start l c) word symbol)))
