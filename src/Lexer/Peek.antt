-- ===== src/Lexer/Peek.antt =====
-- lang/lexer.c: a token that is looked at first.
use base_nexs.Common.{◌≡◌, ◌∙◌, sym, ap, refl, none, some, Option-cases, inl, inr}
use base_nexs.Config.{Limits}
use base_nexs.Lexer.Tokens.{Token}
use base_nexs.Lexer.{Lexer, Numerals, lexer_next, lexer_peek}
use base_nexs.Lexer.Progress.{peeked-lexer_next}

module _ (l : Limits) (numerals : Numerals) where
  next_peeked :
      (lex : Lexer) (t : Token)
      → lex.peeked ≡ some t
      → lexer_next l numerals lex ≡ (record lex { peeked = none }, t)
  unfolding lexer_next
  next_peeked lex t e = rw e refl

  pub peek_empty :
      (lex : Lexer)
      → lex.peeked ≡ none
      → lexer_peek l numerals lex ≡ (
        record ((lexer_next l numerals lex).0) { peeked = some ((lexer_next l numerals lex).1) },
        (lexer_next l numerals lex).1,
      )
  unfolding lexer_peek
  peek_empty lex e = rw e refl

  pub peek_full :
      (lex : Lexer) (t : Token) → lex.peeked ≡ some t → lexer_peek l numerals lex ≡ (lex, t)
  unfolding lexer_peek
  peek_full lex t e = rw e refl

  without_peeked : (lex : Lexer) → lex.peeked ≡ none → record lex { peeked = none } ≡ lex
  without_peeked lex e = ap (λ p. record lex { peeked = p }) (sym e)

  -- `lexer_peek` gives the token that `lexer_next` would, and `lexer_next` after it ends where it would have
  -- without: looking ahead changes nothing. Peeking twice is peeking once.
  pub lexer_next-lexer_peek :
      (lex : Lexer)
      → (lexer_next l numerals ((lexer_peek l numerals lex).0) ≡ lexer_next l numerals lex)
        × (((lexer_peek l numerals lex).1 ≡ (lexer_next l numerals lex).1)
            × (lexer_peek l numerals ((lexer_peek l numerals lex).0) ≡ lexer_peek l numerals lex))
  lexer_next-lexer_peek lex = elim (Option-cases (lex.peeked)) [
    | inl e ↦
        let k = lexer_next l numerals lex in
        let ahead : Lexer = record (k.0) { peeked = some (k.1) } in
        let back : lexer_next l numerals ahead ≡ k =
          next_peeked ahead (k.1) refl
          ∙ ap (λ x. (x, k.1)) (without_peeked (k.0) (peeked-lexer_next l numerals lex)) in
        rw (peek_empty lex e) (back, (refl, peek_full ahead (k.1) refl))
    | inr (t, e) ↦
        rw (peek_full lex t e)
          (refl, (ap (λ n. n.1) (sym (next_peeked lex t e)), peek_full lex t e))
  ]
