-- ===== src/Router/Patterns/Inserting/Growing.antt =====
-- `RawTree::insert` of lib/src/router.cc at a node whose own path is behind: `insert_new`, and the
-- way down to a child.
use cppmhd.Prelude.{
  ℕ, zero, suc, ◌≡◌, ◌≤◌, ◌⊎◌, refl, inl, inr, true, false, some, List, [], ◌∷◌, arith, ltb, sym,
  length, subst,
}
use cppmhd.Router.Node.{
  Info, Node, Nodes, node, nil, cons, info, children, RouterNodeType, raw_node, children_count,
  push_child,
}
use cppmhd.Router.Insert.{Param, find_wildcard, insert_child, append_child, insert_new}
use cppmhd.Router.Patterns.Tokens.{Token, lit, param, rest, written, IsPattern}
use cppmhd.Router.Patterns.Goals.{Goal, Handled, IsGood, AreGood, push_child-AreGood}
use cppmhd.Router.Patterns.Queues.{Ready, Allows, IsWildcard}
use cppmhd.Router.Patterns.Inserting.Wildcards.{Gives, Gives-below, wild-Gives}
use cppmhd.Router.Patterns.Inserting.Fresh.{fresh-Below, fresh-IsGood}

-- What is behind the node's own path is good.
abbrev pub IsOpen : Goal → Node → Type 0
IsOpen g n = Handled g (info n).handle × AreGood (info n).wildchild g (children n)

-- So it is, with the path as it was; the type and the flag change for a wildcard alone.
abbrev pub Fills : Goal → Info → List Token → Node → Type 0
Fills g i q n =
    ((info n).path ≡ i.path)
    × (IsWildcard q ⊎ (((info n).type ≡ i.type) × ((info n).wildchild ≡ i.wildchild)))
    × IsOpen g n

pub IsOpen-Fills : (g : Goal) (q : List Token) (n : Node) → IsOpen g n → Fills g (info n) q n
IsOpen-Fills g q n h = (refl, inr (refl, refl), h)

module _ (c : ℕ) (g : Goal) where
  -- A wildcard becomes the only child of a node without children.
  here-Fills :
      (fuel : ℕ) (i : Info) (q : List Token) (ps : List Param)
      → Handled g i.handle
      → IsWildcard q
      → IsPattern q
      → Ready q ps
      → Allows c g q
      → Gives (Fills g i q) (insert_child fuel (node i nil) (written q) (some c) ps)
  unfolding insert_child find_wildcard
  here-Fills zero i q ps h wild pat ready a = tt
  here-Fills (suc fuel) i q ps h wild pat ready a =
      wild-Gives c fuel g i [] (Fills g i q) refl (λ p r n k. (refl, inl wild, (h, k))) q ps
        (fresh-Below c fuel) wild pat ready a

  -- With children, it is refused.
  full-Fills :
      (fuel : ℕ) (i : Info) (m : Node) (ns : Nodes) (q : List Token) (ps : List Param)
      → IsOpen g (node i (cons m ns))
      → IsWildcard q
      → Gives (Fills g i q) (insert_child fuel (node i (cons m ns)) (written q) (some c) ps)
  unfolding insert_child children_count find_wildcard
  full-Fills zero i m ns q ps h wild = tt
  full-Fills (suc fuel) i m ns [] ps h wild = absurd wild
  full-Fills (suc fuel) i m ns (lit x ∷ q) ps h wild = absurd wild
  full-Fills (suc fuel) i m ns (param ∷ q) [] h wild = tt
  full-Fills (suc fuel) i m ns (param ∷ q) (p ∷ ps) h wild =
      let has_child : ltb 0 (suc (children_count ns)) ≡ true = ground arith in
      rw has_child (IsOpen-Fills g (param ∷ q) (node i (cons m ns)) h)
  full-Fills (suc fuel) i m ns (rest ∷ q) [] h wild = tt
  full-Fills (suc fuel) i m ns (rest ∷ q) (p ∷ ps) h wild =
      let has_child : ltb 0 (suc (children_count ns)) ≡ true = ground arith in
      rw has_child (IsOpen-Fills g (rest ∷ q) (node i (cons m ns)) h)

  append_child-Fills :
      (n m : Node) (x : ℕ) (q : List Token)
      → IsOpen g n
      → (info n).wildchild ≡ false
      → IsGood g m
      → Fills g (info n) q (append_child n x m)
  unfolding append_child
  append_child-Fills (node i ns) m x q h w k =
      let old = subst (λ b. AreGood b g ns) w h.1 in
      (
        refl,
        inr (refl, refl),
        (h.0, subst (λ b. AreGood b g (push_child ns m)) (sym w) (push_child-AreGood g ns m old k)),
      )

  pub insert_new-Fills :
      (n : Node) (q : List Token) (ps : List Param)
      → IsOpen g n
      → (info n).wildchild ≡ false
      → IsPattern q
      → Ready q ps
      → Allows c g q
      → 1 ≤ length (written q)
      → Gives (Fills g (info n) q) (insert_new n (written q) (some c) ps)
  unfolding insert_new
  insert_new-Fills n [] ps h w pat ready a long = absurd (omega (arith, long))
  insert_new-Fills n (lit x ∷ q) ps h w pat ready a long =
      let fresh : Info = record raw_node { type = RouterNodeType.static_part } in
      let r =
        insert_child (suc (suc (length (written q)))) (node fresh nil) (x ∷ written q) (some c)
          ps in
      let new : Gives (IsGood g) r =
        fresh-IsGood c (suc (suc (length (written q)))) g fresh (lit x ∷ q) ps refl refl refl pat
          ready a in
      rw (insert_new, pat.0)
        (Gives-below (IsGood g) (Fills g (info n) (lit x ∷ q)) (λ m. append_child n x m) r
          (λ m k. append_child-Fills n m x (lit x ∷ q) h w k) new)
  insert_new-Fills (node i nil) (param ∷ q) ps h w pat ready a long =
      here-Fills (suc (suc (length (written q)))) i (param ∷ q) ps h.0 tt pat ready a
  insert_new-Fills (node i nil) (rest ∷ q) ps h w pat ready a long =
      here-Fills (suc (suc (length (written q)))) i (rest ∷ q) ps h.0 tt pat ready a
  insert_new-Fills (node i (cons m ns)) (param ∷ q) ps h w pat ready a long =
      full-Fills (suc (suc (length (written q)))) i m ns (param ∷ q) ps h tt
  insert_new-Fills (node i (cons m ns)) (rest ∷ q) ps h w pat ready a long =
      full-Fills (suc (suc (length (written q)))) i m ns (rest ∷ q) ps h tt
