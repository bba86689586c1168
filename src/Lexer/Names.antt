-- ===== src/Lexer/Names.antt =====
-- lang/lexer.c: `token_kind_name` against the keywords.
use base_nexs.Common.{
  ℕ, ◌≡◌, ◌≢◌, ◌∙◌, sym, ap, refl, Bool, some, List, [], ◌∷◌, All, inl, inr, ◌⊎◌, none_ne_some,
  some_inj, Bool-cases, str_eq, if◌then◌else◌,
}
use mathlib.Core.Path.{subst}
use base_nexs.Lexer.Tokens.{TokenKind, tk_kw_cd, tk_kw_pwd, keywords, find_keyword, token_kind_name}

find_keyword-All :
    (P : TokenKind → Type 0) (table : List (List ℕ × TokenKind)) (w : List ℕ) (k : TokenKind)
    → All (λ e. P (e.1)) table
    → find_keyword table w ≡ some k
    → P k
unfolding find_keyword
find_keyword-All P [] w k h e = absurd (none_ne_some k e)
find_keyword-All P ((word, kind) ∷ rest) w k h e =
    let branch = λ (b : Bool). if b then some kind else find_keyword rest w in
    elim (Bool-cases (str_eq w word)) [
      | inl t ↦ subst P (some_inj kind k (sym (ap branch t) ∙ e)) (h.0)
      | inr f ↦ find_keyword-All P rest w k (h.1) (sym (ap branch f) ∙ e)
    ]

-- A kind whose name reads as that kind, or one of the two without a name.
abbrev Named : TokenKind → Type 0
Named k = (find_keyword keywords (token_kind_name k) ≡ some k) ⊎ ((k ≡ tk_kw_cd) ⊎ (k ≡ tk_kw_pwd))

keywords-Named : All (λ e. Named (e.1)) keywords
unfolding keywords find_keyword token_kind_name str_eq
keywords-Named = (
  inl refl,
  (
    inl refl,
    (
      inl refl,
      (
        inl refl,
        (
          inl refl,
          (
            inl refl,
            (
              inl refl,
              (
                inl refl,
                (
                  inl refl,
                  (
                    inl refl,
                    (
                      inl refl,
                      (
                        inl refl,
                        (
                          inl refl,
                          (
                            inl refl,
                            (
                              inl refl,
                              (
                                inl refl,
                                (
                                  inl refl,
                                  (
                                    inl refl,
                                    (
                                      inl refl,
                                      (
                                        inl refl,
                                        (
                                          inr (inl refl),
                                          (
                                            inr (inr refl),
                                            (
                                              inl refl,
                                              (inl refl, (inl refl, (inl refl, (inl refl, tt)))),
                                            ),
                                          ),
                                        ),
                                      ),
                                    ),
                                  ),
                                ),
                              ),
                            ),
                          ),
                        ),
                      ),
                    ),
                  ),
                ),
              ),
            ),
          ),
        ),
      ),
    ),
  ),
)

-- The name that is printed for the kind of a keyword is a keyword of that kind, but for `cd` and `pwd`.
pub find_keyword-token_kind_name :
    (w : List ℕ) (k : TokenKind)
    → find_keyword keywords w ≡ some k
    → k ≢ tk_kw_cd
    → k ≢ tk_kw_pwd
    → find_keyword keywords (token_kind_name k) ≡ some k
find_keyword-token_kind_name w k e c p =
    elim (find_keyword-All Named keywords w k keywords-Named e) [
      | inl n ↦ n
      | inr o ↦ elim o [ inl x ↦ absurd (c x) | inr x ↦ absurd (p x) ]
    ]
