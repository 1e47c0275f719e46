-- ===== src/Router/Patterns/Inserting/Fresh.antt =====
-- `RawTree::insertChild` of lib/src/router.cc on a node with no children.
use cppmhd.Prelude.{
  ℕ, zero, suc, ◌≡◌, ◌⊎◌, refl, inl, inr, false, none, some, List, [], ◌++◌, Str, ap, sym, ◌∙◌,
  subst,
}
use mathlib.Core.List.{append-nil}
use cppmhd.Router.Node.{Info, node, nil}
use cppmhd.Router.Insert.{Param, next_info, static_end, insert_child}
use cppmhd.Router.Radix.Prefix.{IsPlain}
use cppmhd.Router.Patterns.Tokens.{Token, lits, written, IsPattern}
use cppmhd.Router.Patterns.Goals.{Goal, after, node-IsGood, IsGood}
use cppmhd.Router.Patterns.Queues.{
  Ready, Ready-lits, Allows, Allows-lits, IsWildcard, opening, written-lits,
}
use cppmhd.Router.Patterns.Inserting.Wildcards.{
  Gives, Gives-weaker, wrap-IsGood, GoodAt, Below, wild-Gives,
}

fresh_at :
    (c fuel : ℕ) (g : Goal) (i : Info) (s : Str) (r : List Token) (ps : List Param)
    → Below c fuel
    → IsPlain s
    → IsPattern r
    → (r ≡ []) ⊎ IsWildcard r
    → i.path ≡ []
    → i.handle ≡ none
    → i.wildchild ≡ false
    → Ready r ps
    → Allows c (after (lits s) g) r
    → Gives (GoodAt g s) (insert_child (suc fuel) (node i nil) (s ++ written r) (some c) ps)
unfolding insert_child
fresh_at c fuel g i s r ps ih plain pat (inl at_end) e h w ready a =
    let a' : g (lits s ++ []) c = subst (Allows c (after (lits s) g)) at_end a in
    subst (λ u. Gives (GoodAt g s) (insert_child (suc fuel) (node i nil) u (some c) ps))
      (sym (append-nil s) ∙ ap (λ r. s ++ written r) (sym at_end))
      (rw (insert_child, plain)
        (node-IsGood g (static_end s (some c) i) nil s false refl w plain a' tt, refl))
fresh_at c fuel g i s r ps ih plain pat (inr wild) e h w ready a =
    wild-Gives c fuel (after (lits s) g) i s (GoodAt g s) plain
      (λ p r n k. wrap-IsGood g i s r p n plain e h k) r ps ih wild pat ready a

-- The same on any childless node without a path, whose path becomes the characters up to the wildcard.
abbrev pub AtNode : ℕ → ℕ → Type 1
AtNode c fuel =
    (g : Goal) (i : Info) (s : Str) (r : List Token) (ps : List Param)
    → IsPlain s
    → IsPattern r
    → (r ≡ []) ⊎ IsWildcard r
    → i.path ≡ []
    → i.handle ≡ none
    → i.wildchild ≡ false
    → Ready r ps
    → Allows c (after (lits s) g) r
    → Gives (GoodAt g s) (insert_child fuel (node i nil) (s ++ written r) (some c) ps)

-- A pattern is its characters up to the first wildcard, and the rest.
module _ (c fuel : ℕ) (g : Goal) (i : Info) (e : i.path ≡ []) (h : i.handle ≡ none)
    (w : i.wildchild ≡ false) where
  AtNode-IsGood :
      (q : List Token) (ps : List Param)
      → AtNode c fuel
      → IsPattern q
      → Ready q ps
      → Allows c g q
      → Gives (IsGood g) (insert_child fuel (node i nil) (written q) (some c) ps)
  AtNode-IsGood q ps at pat ready a =
      let o = opening q pat in
      let parts = subst (λ q. Ready q ps × Allows c g q) o.whole (ready, a) in
      subst (λ u. Gives (IsGood g) (insert_child fuel (node i nil) u (some c) ps))
        (sym (ap written o.whole ∙ written-lits o.front o.back))
        (Gives-weaker (GoodAt g o.front) (IsGood g)
          (insert_child fuel (node i nil) (o.front ++ written o.back) (some c) ps) (λ n k. k.0)
          (at g i o.front o.back ps o.plain o.pattern o.wild e h w
            (Ready-lits o.front o.back ps parts.0) (Allows-lits c g o.front o.back parts.1)))

-- The handler comes to stand where the goal allows it.
pub fresh-Gives : (c fuel : ℕ) → AtNode c fuel
unfolding insert_child
fresh-Gives c zero g i s r ps plain pat wild e h w ready a = tt
fresh-Gives c (suc fuel) g i s r ps plain pat wild e h w ready a =
    fresh_at c fuel g i s r ps
      (λ g q ps.
        AtNode-IsGood c fuel g (next_info (written q)) refl refl refl q ps (fresh-Gives c fuel))
      plain pat wild e h w ready a

pub fresh-IsGood :
    (c fuel : ℕ) (g : Goal) (i : Info) (q : List Token) (ps : List Param)
    → i.path ≡ []
    → i.handle ≡ none
    → i.wildchild ≡ false
    → IsPattern q
    → Ready q ps
    → Allows c g q
    → Gives (IsGood g) (insert_child fuel (node i nil) (written q) (some c) ps)
fresh-IsGood c fuel g i q ps e h w = AtNode-IsGood c fuel g i e h w q ps (fresh-Gives c fuel)

pub fresh-Below : (c fuel : ℕ) → Below c fuel
fresh-Below c fuel g q ps = fresh-IsGood c fuel g (next_info (written q)) q ps refl refl refl
