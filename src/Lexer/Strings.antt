-- ===== src/Lexer/Strings.antt =====
-- lang/lexer.c: a string literal is read as the text that was quoted.
use base_nexs.Common.{
  ℕ, zero, suc, ◌-◌, ◌≤◌, ◌<◌, ◌≡◌, ◌≢◌, ◌∙◌, ap, refl, none, List, [], ◌∷◌, ◌++◌, ◌==◌, ◌||◌,
  if◌then◌else◌, length, NoNul, c_str-eq, take_short, ne→==,
}
use native.Mathlib.Omega.{arith}
use native.Mathlib.Decide.{ℕ_discrete}
use base_nexs.Config.{Limits}
use base_nexs.Lexer.Tokens.{tk_string}
use base_nexs.Lexer.{
  Numerals, skip_ws, string_char, read_string, close_string, lex_string, lex_token, lex_at,
  lexer_next, make_tok,
}

-- A text as it is written between quotes: a backslash before each quote and backslash.
unfoldable pub quoted : List ℕ → List ℕ
quoted [] = []
quoted (c ∷ s) = if c == 34 || c == 92 then 92 ∷ c ∷ quoted s else c ∷ quoted s

string_char_plain : (c : ℕ) (cs : List ℕ) → c ≢ 92 → string_char c cs ≡ (c, cs)
unfolding string_char
string_char_plain c [] b = refl
string_char_plain c (d ∷ ds) b = rw (ne→== c 92 b) refl

read_plain :
    (room c : ℕ) (cs : List ℕ)
    → c ≢ 34
    → c ≢ 92
    → read_string (suc room) (c ∷ cs) ≡ (c ∷ (read_string room cs).0, (read_string room cs).1)
unfolding read_string
read_plain room c cs q b = rw (ne→== c 34 q, string_char_plain c cs b) refl

read_string-quoted :
    (room : ℕ) (s rest : List ℕ)
    → length s ≤ room
    → read_string room (quoted s ++ (34 ∷ rest)) ≡ (s, 34 ∷ rest)
unfolding read_string quoted string_char
read_string-quoted zero [] rest h = refl
read_string-quoted zero (c ∷ s) rest h = absurd (omega arith)
read_string-quoted (suc room) [] rest h = refl
read_string-quoted (suc room) (c ∷ s) rest h =
    let more = read_string-quoted room s rest (omega arith) in
    elim (ℕ_discrete c 34) [
      | yes q ↦ rw q (ap (λ m. (34 ∷ m.0, m.1)) more)
      | no q ↦ elim (ℕ_discrete c 92) [
        | yes b ↦ rw b (ap (λ m. (92 ∷ m.0, m.1)) more)
        | no b ↦
            rw (ne→== c 34 q, ne→== c 92 b)
              (read_plain room c (quoted s ++ (34 ∷ rest)) q b ∙ ap (λ m. (c ∷ m.0, m.1)) more)
      ]
    ]

module _ (l : Limits) (numerals : Numerals) where
  -- A text without NUL and shorter than a token's `text` and a literal's buffer, written between quotes, is read
  -- as a string token with exactly this text, at the lexer's line; what is left is what stands behind the quotes.
  pub lexer_next-quoted :
      (s rest : List ℕ) (line col : ℕ)
      → NoNul s
      → length s < l.name_len
      → length s < l.max_str_len
      → lexer_next l numerals
          (record { rest = 34 ∷ quoted s ++ (34 ∷ rest); line = line; col = col; peeked = none })
        ≡ (
          record { rest = rest; line = line; col = col; peeked = none },
          record { kind = tk_string; text = s; ival = 0; fval = 0; line = line },
        )
  unfolding lexer_next skip_ws lex_at lex_token lex_string make_tok close_string
  lexer_next-quoted s rest line col z n m =
      rw
        (
          read_string-quoted (l.max_str_len - 1) s rest (omega arith),
          c_str-eq s z,
          take_short (l.name_len - 1) s (omega arith),
        )
        refl
