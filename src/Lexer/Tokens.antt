-- ===== src/Lexer/Tokens.antt =====
-- lang/include/nexs_lex.h and the tables of lang/lexer.c: tokens, keywords and the names of kinds.
use base_nexs.Common.{ℕ, Option, none, some, List, [], ◌∷◌, if◌then◌else◌, str_eq}

-- `TokenKind`
pub data TokenKind : Type 0 where
  tk_eof tk_int tk_float tk_string tk_ident tk_regpath tk_plus tk_minus tk_star : TokenKind
  tk_slash tk_percent tk_eq tk_eqeq tk_neq tk_lt tk_gt tk_le tk_ge tk_and tk_or : TokenKind
  tk_not tk_dot tk_lbracket tk_rbracket tk_lbrace tk_rbrace tk_lparen tk_rparen : TokenKind
  tk_comma tk_newline tk_kw_fn tk_kw_ret tk_kw_if tk_kw_else tk_kw_loop tk_kw_break : TokenKind
  tk_kw_cont tk_kw_del tk_kw_out tk_kw_reg tk_kw_ls tk_kw_import tk_kw_proc tk_kw_and : TokenKind
  tk_kw_or tk_kw_not tk_kw_true tk_kw_false tk_kw_nil tk_kw_cd tk_kw_pwd tk_kw_ptr : TokenKind
  tk_kw_deref tk_kw_send tk_kw_recv tk_kw_pending : TokenKind

-- `Token`
pub record Token : Type 0 where
  pub kind : TokenKind
  pub text : List ℕ
  pub ival : ℕ
  pub fval : ℕ
  pub line : ℕ

-- The table `keywords`.
unfoldable pub keywords : List (List ℕ × TokenKind)
keywords =
    (102 ∷ 110 ∷ [], tk_kw_fn)
    ∷ (114 ∷ 101 ∷ 116 ∷ [], tk_kw_ret)
    ∷ (105 ∷ 102 ∷ [], tk_kw_if)
    ∷ (101 ∷ 108 ∷ 115 ∷ 101 ∷ [], tk_kw_else)
    ∷ (108 ∷ 111 ∷ 111 ∷ 112 ∷ [], tk_kw_loop)
    ∷ (98 ∷ 114 ∷ 101 ∷ 97 ∷ 107 ∷ [], tk_kw_break)
    ∷ (99 ∷ 111 ∷ 110 ∷ 116 ∷ [], tk_kw_cont)
    ∷ (99 ∷ 111 ∷ 110 ∷ 116 ∷ 105 ∷ 110 ∷ 117 ∷ 101 ∷ [], tk_kw_cont)
    ∷ (100 ∷ 101 ∷ 108 ∷ [], tk_kw_del)
    ∷ (111 ∷ 117 ∷ 116 ∷ [], tk_kw_out)
    ∷ (114 ∷ 101 ∷ 103 ∷ [], tk_kw_reg)
    ∷ (108 ∷ 115 ∷ [], tk_kw_ls)
    ∷ (105 ∷ 109 ∷ 112 ∷ 111 ∷ 114 ∷ 116 ∷ [], tk_kw_import)
    ∷ (112 ∷ 114 ∷ 111 ∷ 99 ∷ [], tk_kw_proc)
    ∷ (97 ∷ 110 ∷ 100 ∷ [], tk_kw_and)
    ∷ (111 ∷ 114 ∷ [], tk_kw_or)
    ∷ (110 ∷ 111 ∷ 116 ∷ [], tk_kw_not)
    ∷ (116 ∷ 114 ∷ 117 ∷ 101 ∷ [], tk_kw_true)
    ∷ (102 ∷ 97 ∷ 108 ∷ 115 ∷ 101 ∷ [], tk_kw_false)
    ∷ (110 ∷ 105 ∷ 108 ∷ [], tk_kw_nil)
    ∷ (99 ∷ 100 ∷ [], tk_kw_cd)
    ∷ (112 ∷ 119 ∷ 100 ∷ [], tk_kw_pwd)
    ∷ (112 ∷ 116 ∷ 114 ∷ [], tk_kw_ptr)
    ∷ (100 ∷ 101 ∷ 114 ∷ 101 ∷ 102 ∷ [], tk_kw_deref)
    ∷ (115 ∷ 101 ∷ 110 ∷ 100 ∷ 109 ∷ 101 ∷ 115 ∷ 115 ∷ 97 ∷ 103 ∷ 101 ∷ [], tk_kw_send)
    ∷ (
      114 ∷ 101 ∷ 99 ∷ 101 ∷ 105 ∷ 118 ∷ 101 ∷ 109 ∷ 101 ∷ 115 ∷ 115 ∷ 97 ∷ 103 ∷ 101 ∷ [],
      tk_kw_recv,
    )
    ∷ (109 ∷ 115 ∷ 103 ∷ 112 ∷ 101 ∷ 110 ∷ 100 ∷ 105 ∷ 110 ∷ 103 ∷ [], tk_kw_pending)
    ∷ []

-- The kind of the first keyword that is the word.
unfoldable pub find_keyword : List (List ℕ × TokenKind) → List ℕ → Option TokenKind
find_keyword [] buf = none
find_keyword ((word, kind) ∷ rest) buf =
    if str_eq buf word then some kind else find_keyword rest buf

unfoldable pub token_kind_name : TokenKind → List ℕ
token_kind_name tk_eof = 69 ∷ 79 ∷ 70 ∷ []
token_kind_name tk_int = 73 ∷ 78 ∷ 84 ∷ []
token_kind_name tk_float = 70 ∷ 76 ∷ 79 ∷ 65 ∷ 84 ∷ []
token_kind_name tk_string = 83 ∷ 84 ∷ 82 ∷ []
token_kind_name tk_ident = 73 ∷ 68 ∷ 69 ∷ 78 ∷ 84 ∷ []
token_kind_name tk_regpath = 80 ∷ 65 ∷ 84 ∷ 72 ∷ []
token_kind_name tk_plus = 43 ∷ []
token_kind_name tk_minus = 45 ∷ []
token_kind_name tk_star = 42 ∷ []
token_kind_name tk_slash = 47 ∷ []
token_kind_name tk_percent = 37 ∷ []
token_kind_name tk_eq = 61 ∷ []
token_kind_name tk_eqeq = 61 ∷ 61 ∷ []
token_kind_name tk_neq = 33 ∷ 61 ∷ []
token_kind_name tk_lt = 60 ∷ []
token_kind_name tk_gt = 62 ∷ []
token_kind_name tk_le = 60 ∷ 61 ∷ []
token_kind_name tk_ge = 62 ∷ 61 ∷ []
token_kind_name tk_and = 38 ∷ 38 ∷ []
token_kind_name tk_or = 124 ∷ 124 ∷ []
token_kind_name tk_not = 33 ∷ []
token_kind_name tk_dot = 46 ∷ []
token_kind_name tk_lbracket = 91 ∷ []
token_kind_name tk_rbracket = 93 ∷ []
token_kind_name tk_lbrace = 123 ∷ []
token_kind_name tk_rbrace = 125 ∷ []
token_kind_name tk_lparen = 40 ∷ []
token_kind_name tk_rparen = 41 ∷ []
token_kind_name tk_comma = 44 ∷ []
token_kind_name tk_newline = 78 ∷ 76 ∷ []
token_kind_name tk_kw_fn = 102 ∷ 110 ∷ []
token_kind_name tk_kw_ret = 114 ∷ 101 ∷ 116 ∷ []
token_kind_name tk_kw_if = 105 ∷ 102 ∷ []
token_kind_name tk_kw_else = 101 ∷ 108 ∷ 115 ∷ 101 ∷ []
token_kind_name tk_kw_loop = 108 ∷ 111 ∷ 111 ∷ 112 ∷ []
token_kind_name tk_kw_break = 98 ∷ 114 ∷ 101 ∷ 97 ∷ 107 ∷ []
token_kind_name tk_kw_cont = 99 ∷ 111 ∷ 110 ∷ 116 ∷ []
token_kind_name tk_kw_del = 100 ∷ 101 ∷ 108 ∷ []
token_kind_name tk_kw_out = 111 ∷ 117 ∷ 116 ∷ []
token_kind_name tk_kw_reg = 114 ∷ 101 ∷ 103 ∷ []
token_kind_name tk_kw_ls = 108 ∷ 115 ∷ []
token_kind_name tk_kw_import = 105 ∷ 109 ∷ 112 ∷ 111 ∷ 114 ∷ 116 ∷ []
token_kind_name tk_kw_proc = 112 ∷ 114 ∷ 111 ∷ 99 ∷ []
token_kind_name tk_kw_and = 97 ∷ 110 ∷ 100 ∷ []
token_kind_name tk_kw_or = 111 ∷ 114 ∷ []
token_kind_name tk_kw_not = 110 ∷ 111 ∷ 116 ∷ []
token_kind_name tk_kw_true = 116 ∷ 114 ∷ 117 ∷ 101 ∷ []
token_kind_name tk_kw_false = 102 ∷ 97 ∷ 108 ∷ 115 ∷ 101 ∷ []
token_kind_name tk_kw_nil = 110 ∷ 105 ∷ 108 ∷ []
token_kind_name tk_kw_ptr = 112 ∷ 116 ∷ 114 ∷ []
token_kind_name tk_kw_deref = 100 ∷ 101 ∷ 114 ∷ 101 ∷ 102 ∷ []
token_kind_name tk_kw_send = 115 ∷ 101 ∷ 110 ∷ 100 ∷ 109 ∷ 101 ∷ 115 ∷ 115 ∷ 97 ∷ 103 ∷ 101 ∷ []
token_kind_name tk_kw_recv =
    114 ∷ 101 ∷ 99 ∷ 101 ∷ 105 ∷ 118 ∷ 101 ∷ 109 ∷ 101 ∷ 115 ∷ 115 ∷ 97 ∷ 103 ∷ 101 ∷ []
token_kind_name tk_kw_pending = 109 ∷ 115 ∷ 103 ∷ 112 ∷ 101 ∷ 110 ∷ 100 ∷ 105 ∷ 110 ∷ 103 ∷ []
token_kind_name tk_kw_cd = 63 ∷ []
token_kind_name tk_kw_pwd = 63 ∷ []
