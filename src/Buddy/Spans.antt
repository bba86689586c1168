-- ===== src/Buddy/Spans.antt =====
-- The taken bytes of a block: where they lie, and what first fit and release do to them.
use base_nexs.Common.{
  ℕ, zero, suc, ◌+◌, ◌≤◌, ◌<◌, ◌≡◌, refl, sym, ◌∙◌, List, [], ◌∷◌, ◌++◌, arith, Bool-cases, inl,
  inr, ltb→lt, ltb→le, ltb, ne→==,
}
use base_nexs.Config.{Limits}
use base_nexs.Buddy.Block.{Block, vacant, taken, fork, join, release, spans}
use base_nexs.Buddy.Block.{IsNormal, Ordered, without}
use base_nexs.Buddy.Size.{units, units-suc, units-half, units_pos}

Ordered-append :
    (lo mid hi : ℕ) (xs ys : List (ℕ × ℕ))
    → Ordered lo mid xs
    → Ordered mid hi ys
    → Ordered lo hi (xs ++ ys)
Ordered-append lo mid hi [] [] h k = omega arith
Ordered-append lo mid hi [] (y ∷ ys) h k = (omega arith, k.1, k.2)
Ordered-append lo mid hi (x ∷ xs) ys h k = (h.0, h.1, Ordered-append (x.0 + x.1) mid hi xs ys h.2 k)

without-append :
    (a : ℕ) (xs ys : List (ℕ × ℕ)) → without a (xs ++ ys) ≡ without a xs ++ without a ys
without-append a [] ys = refl
without-append a ((s, n) ∷ xs) ys = ground (arith, without-append a xs ys)

without_below : (a lo hi : ℕ) (xs : List (ℕ × ℕ)) → a < lo → Ordered lo hi xs → without a xs ≡ xs
without_below a lo hi [] h o = refl
without_below a lo hi ((s, n) ∷ xs) h o =
    rw (ne→== s a (omega arith), without_below a (s + n) hi xs (omega arith) o.2)

Ordered-le : (lo hi : ℕ) (xs : List (ℕ × ℕ)) → Ordered lo hi xs → lo ≤ hi
Ordered-le lo hi [] o = o
Ordered-le lo hi ((s, n) ∷ xs) o = omega (arith, Ordered-le (s + n) hi xs o.2)

without_above : (a lo hi : ℕ) (xs : List (ℕ × ℕ)) → hi ≤ a → Ordered lo hi xs → without a xs ≡ xs
without_above a lo hi [] h o = refl
without_above a lo hi ((s, n) ∷ xs) h o =
    let k = Ordered-le (s + n) hi xs o.2 in
    rw (ne→== s a (omega arith), without_above a (s + n) hi xs h o.2)

module _ (l : Limits) (least : 0 < l.min_block) where
  -- The taken blocks do not overlap and lie inside the block.
  pub spans-Ordered :
      (d off : ℕ) (b : Block)
      → IsNormal d b
      → Ordered off (off + units l d) (spans (units l d) off b)
  unfolding spans
  spans-Ordered d off vacant n = omega arith
  spans-Ordered d off taken n = omega (arith, units_pos l d least)
  spans-Ordered zero off (fork a b) n = absurd n
  spans-Ordered (suc d) off (fork a b) n = rw units-half (
      Ordered-append off (off + units l d) (off + units l (suc d)) (spans (units l d) off a)
        (spans (units l d) (off + units l d) b) (spans-Ordered d off a n.0)
        (let e : off + units l d + units l d ≡ off + units l (suc d) =
            omega (arith, units-suc l d) in
          rw e at (spans-Ordered d (off + units l d) b n.1)))

  spans-join : (size off : ℕ) (a b : Block) → spans size off (join a b) ≡ spans size off (fork a b)
  unfolding spans join
  spans-join size off vacant vacant = refl
  spans-join size off vacant taken = refl
  spans-join size off vacant (fork a b) = refl
  spans-join size off taken b = refl
  spans-join size off (fork a c) b = refl

  -- Release takes away the block at the target, if it is taken, and no other.
  pub spans-release :
      (target d off : ℕ) (b : Block)
      → IsNormal d b
      → spans (units l d) off (release target (units l d) off b)
        ≡ without target (spans (units l d) off b)
  unfolding spans release
  spans-release target d off vacant n = refl
  spans-release target d off taken n = ground arith
  spans-release target zero off (fork a b) n = absurd n
  spans-release target (suc d) off (fork a b) n = elim (Bool-cases (ltb target (off + units l d))) [
    | inl e ↦
        rw (units-half, e)
          (spans-join (units l (suc d)) off (release target (units l d) off a) b
            ∙ rw (units-half, spans-release target d off a n.0)
                (sym (
                  without-append target (spans (units l d) off a)
                    (spans (units l d) (off + units l d) b)
                  ∙ rw (
                      without_below target (off + units l d) (off + units l d + units l d)
                        (spans (units l d) (off + units l d) b) (ltb→lt target (off + units l d) e)
                        (spans-Ordered d (off + units l d) b n.1)))))
    | inr e ↦
        rw (units-half, e)
          (spans-join (units l (suc d)) off a (release target (units l d) (off + units l d) b)
            ∙ rw (units-half, spans-release target d (off + units l d) b n.1)
                (sym (
                  without-append target (spans (units l d) off a)
                    (spans (units l d) (off + units l d) b)
                  ∙ rw (
                      without_above target off (off + units l d) (spans (units l d) off a)
                        (ltb→le target (off + units l d) e) (spans-Ordered d off a n.0)))))
  ]
