-- ===== src/Lexer.antt =====
-- lang/lexer.c: from source text to tokens. A lexer holds the source from `pos` on. `atoll` and `atof` are
-- arguments; the character classes are those of ASCII.
pub mod Tokens
mod Branches
mod Peek
mod Bounds
mod Names
mod Strings
mod Progress
mod Tests
use base_nexs.Common.{
  ℕ, zero, suc, ◌+◌, ◌-◌, ◌≤◌, ◌<◌, Bool, true, false, not, ◌&&◌, ◌||◌, Option, none, some, List,
  [], ◌∷◌, ◌++◌, leb, ◌==◌, if◌then◌else◌, take, c_str, length, is_digit,
}
use base_nexs.Config.{Limits}
use base_nexs.Lexer.Tokens.{
  Token, TokenKind, keywords, find_keyword, tk_eof, tk_int, tk_float, tk_string, tk_ident,
  tk_regpath, tk_plus, tk_minus, tk_star, tk_slash, tk_percent, tk_eq, tk_eqeq, tk_neq, tk_lt,
  tk_gt, tk_le, tk_ge, tk_and, tk_or, tk_not, tk_dot, tk_lbracket, tk_rbracket, tk_lbrace,
  tk_rbrace, tk_lparen, tk_rparen, tk_comma, tk_newline, tk_kw_fn, tk_kw_ret, tk_kw_if, tk_kw_else,
  tk_kw_loop, tk_kw_break, tk_kw_cont, tk_kw_del, tk_kw_out, tk_kw_reg, tk_kw_ls, tk_kw_import,
  tk_kw_proc, tk_kw_and, tk_kw_or, tk_kw_not, tk_kw_true, tk_kw_false, tk_kw_nil, tk_kw_cd,
  tk_kw_pwd, tk_kw_ptr, tk_kw_deref, tk_kw_send, tk_kw_recv, tk_kw_pending,
}

-- `Lexer`
pub record Lexer : Type 0 where
  pub rest : List ℕ
  pub line : ℕ
  pub col : ℕ
  pub peeked : Option Token

unfoldable pub lexer_init : List ℕ → Lexer
lexer_init src = record { rest = c_str src; line = 1; col = 1; peeked = none }

abbrev pub is_alpha : ℕ → Bool
is_alpha c = (leb 65 c && leb c 90) || (leb 97 c && leb c 122)

abbrev pub is_word : ℕ → Bool
is_word c = is_alpha c || is_digit c || c == 95

abbrev pub is_blank : ℕ → Bool
is_blank c = c == 32 || c == 9 || c == 13

-- What `lexer_skip_ws` leaves, and the column there; the flag is the loop inside a comment.
unfoldable pub skip_ws : Bool → List ℕ → ℕ → List ℕ × ℕ
skip_ws comment [] col = ([], col)
skip_ws true (c ∷ cs) col =
    let more = skip_ws true cs col in if c == 10 then (c ∷ cs, col) else more
skip_ws false (c ∷ cs) col =
    let comment = skip_ws true cs col in
    let blank = skip_ws false cs (col + 1) in
    if c == 35 then comment else if is_blank c then blank else (c ∷ cs, col)

abbrev pub escape : ℕ → ℕ
escape ch =
    if ch == 110
    then 10
    else if ch == 114
    then 13
    else if ch == 98
    then 8
    else if ch == 101
    then 27
    else if ch == 116
    then 9
    else if ch == 92
    then 92
    else if ch == 34
    then 34
    else if ch == 48
    then 0
    else ch

-- One character of a string literal, whose first byte has been read, and what is after it.
unfoldable pub string_char : ℕ → List ℕ → ℕ × List ℕ
string_char c [] = (c, [])
string_char c (d ∷ ds) = if c == 92 then (escape d, ds) else (c, d ∷ ds)

-- The loop over a string literal, with room for so many characters.
unfoldable pub read_string : ℕ → List ℕ → List ℕ × List ℕ
read_string zero cs = ([], cs)
read_string (suc room) [] = ([], [])
read_string (suc room) (c ∷ cs) =
    let s = string_char c cs in
    let more = read_string room (s.1) in if c == 34 then ([], c ∷ cs) else (s.0 ∷ more.0, more.1)

-- Behind the closing quote.
unfoldable pub close_string : List ℕ → List ℕ
close_string [] = []
close_string (c ∷ cs) = let more = close_string cs in if c == 34 then cs else more

-- The characters of a class, at most so many, and what is left.
unfoldable pub read_while : (ℕ → Bool) → ℕ → List ℕ → List ℕ × List ℕ
read_while class zero cs = ([], cs)
read_while class (suc room) [] = ([], [])
read_while class (suc room) (c ∷ cs) =
    let more = read_while class room cs in if class c then (c ∷ more.0, more.1) else ([], c ∷ cs)

abbrev pub has_dot : List ℕ → Bool
has_dot [] = false
has_dot (c ∷ cs) = c == 46 || has_dot cs

abbrev pub starts : (ℕ → Bool) → List ℕ → Bool
starts class [] = false
starts class (c ∷ cs) = class c

-- What `atoll` and `atof` of the C library give for a numeral, as 64 bits.
pub record Numerals : Type 0 where
  pub atoll : List ℕ → ℕ
  pub atof : List ℕ → ℕ

module _ (l : Limits) where
  -- `strncpy` takes what is before the first NUL.
  unfoldable pub make_tok : TokenKind → List ℕ → ℕ → Token
  make_tok k text line = record {
    kind = k;
    text = take (l.name_len - 1) (c_str text);
    ival = 0;
    fval = 0;
    line = line;
  }

  -- A token and what is left; the cases below get the first character apart.
  unfoldable pub lex_string : ℕ → List ℕ → Token × List ℕ
  lex_string line cs =
      let s = read_string (l.max_str_len - 1) cs in
      (make_tok tk_string (s.0) line, close_string (s.1))

  unfoldable pub number_tok : Numerals → ℕ → List ℕ → Token
  number_tok numerals line buf =
      record (make_tok (if has_dot buf then tk_float else tk_int) buf line) {
        ival = numerals.atoll buf;
        fval = numerals.atof buf;
      }

  abbrev pub is_numeric : ℕ → Bool
  is_numeric c = is_digit c || c == 46

  unfoldable pub lex_number : Numerals → ℕ → ℕ → List ℕ → Token × List ℕ
  lex_number numerals line c cs =
      let s = read_while is_numeric (l.max_str_len - 2) cs in
      (number_tok numerals line (c ∷ s.0), s.1)

  abbrev pub is_path : ℕ → Bool
  is_path c = is_alpha c || is_digit c || c == 95 || c == 47

  abbrev pub is_name_start : ℕ → Bool
  is_name_start c = is_alpha c || c == 95

  unfoldable pub lex_path : ℕ → List ℕ → Token × List ℕ
  lex_path line cs =
      let s = read_while is_path (l.max_str_len - 2) cs in
      if starts is_name_start (s.0) || not (starts (λ c. true) (s.0))
      then (make_tok tk_regpath (47 ∷ s.0) line, s.1)
      else (make_tok tk_slash (47 ∷ []) line, cs)

  unfoldable pub lex_word : ℕ → ℕ → List ℕ → Token × List ℕ
  lex_word line c cs =
      let s = read_while is_word (l.max_str_len - 2) cs in
      let buf = c ∷ s.0 in
      (
        (elim (find_keyword keywords buf) [
          | some kind ↦ make_tok kind buf line
          | none ↦ make_tok tk_ident buf line
        ]),
        s.1,
      )

  -- A symbol that is one token with a second character `d` behind it, and another one without.
  unfoldable pub lex_pair : ℕ → ℕ → ℕ → TokenKind → TokenKind → List ℕ → Token × List ℕ
  lex_pair line c d both one [] = (make_tok one (c ∷ []) line, [])
  lex_pair line c d both one (x ∷ cs) =
      if x == d then (make_tok both (c ∷ d ∷ []) line, cs) else (make_tok one (c ∷ []) line, x ∷ cs)

  -- "unknown character '%c'"
  unfoldable pub lex_unknown : ℕ → ℕ → List ℕ → Token × List ℕ
  lex_unknown line c cs = (
    make_tok tk_eof
        ((117 ∷ 110 ∷ 107 ∷ 110 ∷ 111 ∷ 119 ∷ 110 ∷ 32 ∷ 99 ∷ 104 ∷ 97 ∷ 114 ∷ 97 ∷ 99 ∷ 116 ∷ 101
          ∷ 114 ∷ 32 ∷ 39 ∷ c ∷ 39 ∷ []))
        line,
    cs,
  )

  -- "&&" and "||"
  unfoldable pub lex_double : ℕ → ℕ → TokenKind → List ℕ → Token × List ℕ
  lex_double line c both [] = lex_unknown line c []
  lex_double line c both (x ∷ cs) =
      if x == c then (make_tok both (c ∷ c ∷ []) line, cs) else lex_unknown line c (x ∷ cs)

  unfoldable pub lex_symbol : ℕ → ℕ → List ℕ → Token × List ℕ
  lex_symbol line c cs =
      if c == 43
      then (make_tok tk_plus (c ∷ []) line, cs)
      else if c == 45
      then (make_tok tk_minus (c ∷ []) line, cs)
      else if c == 42
      then (make_tok tk_star (c ∷ []) line, cs)
      else if c == 37
      then (make_tok tk_percent (c ∷ []) line, cs)
      else if c == 46
      then (make_tok tk_dot (c ∷ []) line, cs)
      else if c == 91
      then (make_tok tk_lbracket (c ∷ []) line, cs)
      else if c == 93
      then (make_tok tk_rbracket (c ∷ []) line, cs)
      else if c == 123
      then (make_tok tk_lbrace (c ∷ []) line, cs)
      else if c == 125
      then (make_tok tk_rbrace (c ∷ []) line, cs)
      else if c == 40
      then (make_tok tk_lparen (c ∷ []) line, cs)
      else if c == 41
      then (make_tok tk_rparen (c ∷ []) line, cs)
      else if c == 44
      then (make_tok tk_comma (c ∷ []) line, cs)
      else if c == 61
      then lex_pair line c 61 tk_eqeq tk_eq cs
      else if c == 33
      then lex_pair line c 61 tk_neq tk_not cs
      else if c == 60
      then lex_pair line c 61 tk_le tk_lt cs
      else if c == 62
      then lex_pair line c 61 tk_ge tk_gt cs
      else if c == 38
      then lex_double line c tk_and cs
      else if c == 124
      then lex_double line c tk_or cs
      else lex_unknown line c cs

  -- A token that is no newline.
  unfoldable pub lex_token : Numerals → ℕ → ℕ → List ℕ → Token × List ℕ
  lex_token numerals line c cs =
      if c == 34
      then lex_string line cs
      else if is_digit c || (c == 45 && starts is_digit cs)
      then lex_number numerals line c cs
      else if c == 47
      then lex_path line cs
      else if is_name_start c
      then lex_word line c cs
      else lex_symbol line c cs

  -- `lexer_next` where there is no token to give back, behind the blanks.
  unfoldable pub lex_at : Numerals → List ℕ → ℕ → ℕ → Lexer × Token
  lex_at numerals [] line col =
      (record { rest = []; line = line; col = col; peeked = none }, make_tok tk_eof [] line)
  lex_at numerals (c ∷ cs) line col =
      let t = lex_token numerals line c cs in
      if c == 10
      then (
        record { rest = cs; line = line + 1; col = 1; peeked = none },
        make_tok tk_newline (92 ∷ 110 ∷ []) line,
      )
      else (record { rest = t.1; line = line; col = col; peeked = none }, t.0)

  unfoldable pub lexer_next : Numerals → Lexer → Lexer × Token
  lexer_next numerals lex = elim (lex.peeked) [
    | some t ↦ (record lex { peeked = none }, t)
    | none ↦ let s = skip_ws false lex.rest lex.col in lex_at numerals (s.0) lex.line (s.1)
  ]

  unfoldable pub lexer_peek : Numerals → Lexer → Lexer × Token
  lexer_peek numerals lex = elim (lex.peeked) [
    | some t ↦ (lex, t)
    | none ↦ let n = lexer_next numerals lex in (record (n.0) { peeked = some (n.1) }, n.1)
  ]
