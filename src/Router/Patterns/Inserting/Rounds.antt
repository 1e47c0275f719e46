-- ===== src/Router/Patterns/Inserting/Rounds.antt =====
-- The rounds of the loop of `RawTree::insert` of lib/src/router.cc, the cut of a node included.
use cppmhd.Prelude.{
  ℕ, zero, suc, ◌≡◌, refl, inl, inr, true, false, some, List, [], ◌∷◌, ◌++◌, Str, ap, arith, ltb,
  sym, ◌∙◌, length, length-append, subst,
}
use mathlib.Core.List.{append-nil}
use cppmhd.Router.Node.{Info, Node, Nodes, node, nil, cons, info, RouterNodeType}
use cppmhd.Router.Insert.{Param, find_longest_common_prefix, param_char, insert_loop, split_if}
use cppmhd.Router.Radix.Prefix.{IsPlain, parting, IsPlain-append}
use cppmhd.Router.Radix.Cutting.{top, bottom, split_parts}
use cppmhd.Router.Patterns.Tokens.{Token, lit, param, rest, lits, written, IsPattern, Follows}
use cppmhd.Router.Patterns.Goals.{
  Goal, after, after-append, Handled, WildAs, IsGood, AreGood, IsWild, node-IsGood,
}
use cppmhd.Router.Patterns.Queues.{Ready, Ready-lits, Ready-passed, Allows, Allows-lits, IsWildcard}
use cppmhd.Router.Patterns.Inserting.Wildcards.{Gives, Gives-weaker, GoodAt}
use cppmhd.Router.Patterns.Inserting.Growing.{IsOpen, Fills}
use cppmhd.Router.Patterns.Inserting.Looping.{LoopStatic, LoopWild}
use cppmhd.Router.Patterns.Inserting.Behind.{
  round_at, insert_loop-round_at, round_at-Fills, written-Cut, IsPlain-begin, no_prefix,
}

-- The upper part of a node that is cut, or the whole.
module _ (g : Goal) (f : Info) (ns : Nodes) (a : Str) (good : IsGood g (node f ns)) where
  top-GoodAt :
      (path l r : Str)
      → f.path ≡ a ++ r
      → path ≡ a ++ l
      → (m : Node) × (split_if (length a) path (node f ns) ≡ m)
        × ((info m).path ≡ a)
        × IsOpen (after (lits a) g) m
  top-GoodAt path l [] e k =
      let same = e ∙ append-nil a in
      let whole : ltb (length a) (length f.path) ≡ false = ground (arith, ap length same) in
      (
        node f ns,
        rw whole refl,
        same,
        subst (λ a. IsOpen (after (lits a) g) (node f ns)) same (good.1, good.2),
      )
  top-GoodAt path l (x ∷ t) e k =
      let long : ltb (length a) (length f.path) ≡ true =
        ground (arith, ap length e, length-append a (x ∷ t)) in
      let goal =
        subst (λ p. after (lits p) g ≡ after (lits (x ∷ t)) (after (lits a) g)) (sym e)
          (sym (after-append g a (x ∷ t))) in
      (
        node (top f ns a x t e) (cons (node (bottom f ns a x t e) ns) nil),
        rw long (split_parts f ns a x t e path l k),
        refl,
        (
          tt,
          (
            (
              IsPlain-append a (x ∷ t) (subst IsPlain e good.0),
              subst (λ (g' : Goal). Handled g' f.handle) goal good.1,
              subst (λ (g' : Goal). AreGood f.wildchild g' ns) goal good.2,
            ),
            tt,
          ),
        ),
      )

IsOpen-GoodAt :
    (g : Goal) (a : Str) (n : Node)
    → IsPlain a
    → (info n).path ≡ a
    → IsOpen (after (lits a) g) n
    → GoodAt g a n
IsOpen-GoodAt g a (node i ns) plain at h =
    (node-IsGood g i ns a i.wildchild at refl plain h.0 h.1, at)

-- What follows a parameter is no wildcard.
Follows-plain : (q : List Token) → Follows q → IsWildcard q → ⊥
Follows-plain [] h w = w
Follows-plain (lit x ∷ q) h w = w
Follows-plain (param ∷ q) h w = h
Follows-plain (rest ∷ q) h w = h

-- A parameter's node with more below it.
Fills-IsWild :
    (g : Goal) (i : Info) (q : List Token) (n : Node)
    → i.type ≡ RouterNodeType.param
    → i.path ≡ param_char ∷ []
    → i.wildchild ≡ false
    → Follows q
    → Fills (after (param ∷ []) g) i q n
    → IsWild g n
Fills-IsWild g i q (node f ns) t p w follows (at, inl wild, h) =
    absurd (Follows-plain q follows wild)
Fills-IsWild g i q (node f ns) t p w follows (at, inr (type_kept, flag_kept), h) =
    let flag = flag_kept ∙ w in
    subst (λ u. WildAs u g f (AreGood false (after (param ∷ []) g) ns)) (sym (type_kept ∙ t))
      (at ∙ p, flag, h.0, subst (λ b. AreGood b (after (param ∷ []) g) ns) flag h.1)

module _ (c fuel : ℕ) (static_loop : LoopStatic c fuel) (wild_loop : LoopWild c fuel) where
  static-GoodAt :
      (g : Goal) (n : Node) (q : List Token) (ps : List Param)
      → IsGood g n
      → IsPattern q
      → Ready q ps
      → Allows c g q
      → Gives
          (GoodAt g (parting (written q) (info n).path).common)
          (insert_loop (suc fuel) n (written q) (some c) ps)
  static-GoodAt g (node f ns) q ps good pat ready a =
      let p = parting (written q) f.path in
      let plain = IsPlain-begin p.common p.right (subst IsPlain p.second_eq good.0) in
      let k = written-Cut p.common p.left q plain pat p.first_eq in
      let (m, cut, at, open_node) =
        top-GoodAt g f ns p.common good (written q) p.left p.right p.second_eq p.first_eq in
      let behind = subst (λ q. Ready q ps × Allows c g q) k.whole (ready, a) in
      let g' = after (lits p.common) g in
      subst (Gives (GoodAt g p.common))
        (sym (
          insert_loop-round_at fuel c (node f ns) m (written q) p.common p.left ps p.at p.first_eq
            cut
          ∙ ap (λ l. round_at fuel m l c ps) (sym k.same)))
        (Gives-weaker (Fills g' (info m) k.back) (GoodAt g p.common)
          (round_at fuel m (written k.back) c ps)
          (λ n fills. IsOpen-GoodAt g p.common n plain (fills.0 ∙ at) fills.2)
          (round_at-Fills c fuel g' m k.back ps static_loop wild_loop open_node k.pattern
            (Ready-lits p.common k.back ps behind.0) (Allows-lits c g p.common k.back behind.1)))

  -- Behind the parameter.
  behind-IsWild :
      (g : Goal) (f : Info) (ns : Nodes) (q : List Token) (ps : List Param)
      → IsWild g (node f ns)
      → f.type ≡ RouterNodeType.param
      → Follows q
      → IsPattern q
      → Ready q ps
      → Allows c (after (param ∷ []) g) q
      → Gives (IsWild g) (insert_loop (suc fuel) (node f ns) (param_char ∷ written q) (some c) ps)
  unfolding find_longest_common_prefix
  behind-IsWild g f ns q ps wild t follows pat ready a =
      let (p, w, h, below_good) =
        subst (λ u. WildAs u g f (AreGood false (after (param ∷ []) g) ns)) t wild in
      let path = param_char ∷ written q in
      let open_node : IsOpen (after (param ∷ []) g) (node f ns) =
        (h, subst (λ b. AreGood b (after (param ∷ []) g) ns) (sym w) below_good) in
      let at : find_longest_common_prefix path f.path ≡ 1 =
        ap (find_longest_common_prefix path) p ∙ ap suc (no_prefix (written q)) in
      let whole : ltb 1 (length f.path) ≡ false = ground (arith, ap length p) in
      subst (Gives (IsWild g))
        (sym (
          insert_loop-round_at fuel c (node f ns) (node f ns) path (param_char ∷ []) (written q) ps
            at refl (rw whole refl)))
        (Gives-weaker (Fills (after (param ∷ []) g) f q) (IsWild g)
          (round_at fuel (node f ns) (written q) c ps)
          (λ n fills. Fills-IsWild g f q n t p w follows fills)
          (round_at-Fills c fuel (after (param ∷ []) g) (node f ns) q ps static_loop wild_loop
            open_node pat ready a))

  parameter-IsWild :
      (g : Goal) (n : Node) (q : List Token) (ps : List Param)
      → IsWild g n
      → (info n).type ≡ RouterNodeType.param
      → IsWildcard q
      → IsPattern q
      → Ready q ps
      → Allows c g q
      → Gives (IsWild g) (insert_loop (suc fuel) n (written q) (some c) ps)
  parameter-IsWild g n [] ps wild t starts pat ready a = absurd starts
  parameter-IsWild g n (lit x ∷ q) ps wild t starts pat ready a = absurd starts
  parameter-IsWild g (node f ns) (param ∷ q) ps wild t starts pat ready a =
      behind-IsWild g f ns q ps wild t pat.0 pat.1 (Ready-passed q ps ready) a
  parameter-IsWild g (node f ns) (rest ∷ q) ps wild t starts pat ready a =
      subst
        (λ q.
          Gives (IsWild g)
            (insert_loop (suc fuel) (node f ns) (param_char ∷ written q) (some c) ps))
        (sym pat) (behind-IsWild g f ns [] ps wild t tt tt tt a.1)

-- The loop leaves good nodes good.
loops : (c fuel : ℕ) → LoopStatic c fuel × LoopWild c fuel
unfolding insert_loop
loops c zero = (λ g n q ps good pat ready a. tt, λ g n q ps wild t starts pat ready a. tt)
loops c (suc fuel) =
    let (static_loop, wild_loop) = loops c fuel in
    (
      λ g n q ps good pat ready a.
          Gives-weaker (GoodAt g (parting (written q) (info n).path).common) (IsGood g)
            (insert_loop (suc fuel) n (written q) (some c) ps) (λ m k. k.0)
            (static-GoodAt c fuel static_loop wild_loop g n q ps good pat ready a),
      parameter-IsWild c fuel static_loop wild_loop,
    )

pub insert_loop-GoodAt :
    (c fuel : ℕ) (g : Goal) (n : Node) (q : List Token) (ps : List Param)
    → IsGood g n
    → IsPattern q
    → Ready q ps
    → Allows c g q
    → Gives
        (GoodAt g (parting (written q) (info n).path).common)
        (insert_loop (suc fuel) n (written q) (some c) ps)
insert_loop-GoodAt c fuel =
    let (static_loop, wild_loop) = loops c fuel in static-GoodAt c fuel static_loop wild_loop
