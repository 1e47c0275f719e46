-- ===== src/Router/Patterns/Goals.antt =====
-- Trees whose handlers stand at patterns that a goal allows: nodes of lib/src/router.cc.
use cppmhd.Prelude.{
  ℕ, ◌≡◌, refl, ap, sym, ◌∙◌, subst, Bool, true, false, none, some, List, [], ◌∷◌, ◌++◌, Str,
}
use mathlib.Core.Path.{fun_ext}
use mathlib.Core.List.{append_assoc}
use cppmhd.Router.Node.{
  Info, Node, Nodes, node, nil, cons, Handler, RouterNodeType, child_at, set_child, push_child,
}
use cppmhd.Router.Insert.{param_char}
use cppmhd.Router.Radix.Prefix.{IsPlain}
use cppmhd.Router.Patterns.Tokens.{Token, lit, param, rest, lits}

-- Which handler may stand at which pattern.
abbrev pub Goal : Type 1
Goal = List Token → ℕ → Type 0

-- What a goal allows behind some tokens.
abbrev pub after : List Token → Goal → Goal
after s g q c = g (s ++ q) c

abbrev pub Handled : Goal → Handler → Type 0
Handled g none = Unit
Handled g (some c) = g [] c

-- What is asked of a wildcard child by its type, where `below` is about its children.
abbrev pub WildAs : RouterNodeType → Goal → Info → Type 0 → Type 0
WildAs RouterNodeType.param g i below =
    (i.path ≡ param_char ∷ [])
    × (i.wildchild ≡ false)
    × Handled (after (param ∷ []) g) i.handle
    × below
WildAs RouterNodeType.catch_all g i below = Handled (after (rest ∷ []) g) i.handle
WildAs RouterNodeType.unknown g i below = ⊥
WildAs RouterNodeType.root g i below = ⊥
WildAs RouterNodeType.static_part g i below = ⊥

-- A node below its parent's path; the children of a node with or without a wildcard child; and a
-- wildcard child, by its type.
abbrev mutual
  pub IsGood : Goal → Node → Type 0
  IsGood g (node i ns) =
      IsPlain i.path
      × Handled (after (lits i.path) g) i.handle
      × AreGood i.wildchild (after (lits i.path) g) ns

  pub AreGood : Bool → Goal → Nodes → Type 0
  AreGood true g nil = Unit
  AreGood true g (cons n nil) = IsWild g n
  AreGood true g (cons n (cons m ns)) = ⊥
  AreGood false g nil = Unit
  AreGood false g (cons n ns) = IsGood g n × AreGood false g ns

  pub IsWild : Goal → Node → Type 0
  IsWild g (node i ns) = WildAs i.type g i (AreGood false (after (param ∷ []) g) ns)

pub child_at-IsGood :
    (g : Goal) (k : ℕ) (ns : Nodes) (c : Node)
    → AreGood false g ns
    → child_at k ns ≡ some c
    → IsGood g c
unfolding child_at
child_at-IsGood g k nil c h e = cc
child_at-IsGood g ℕ.zero (cons n ns) c h e = let same : n ≡ c = cc in subst (IsGood g) same h.0
child_at-IsGood g (ℕ.suc k) (cons n ns) c h e = child_at-IsGood g k ns c h.1 e

pub child_at-IsWild :
    (g : Goal) (ns : Nodes) (c : Node) → AreGood true g ns → child_at 0 ns ≡ some c → IsWild g c
unfolding child_at
child_at-IsWild g nil c h e = cc
child_at-IsWild g (cons n nil) c h e = let same : n ≡ c = cc in subst (IsWild g) same h
child_at-IsWild g (cons n (cons m ns)) c h e = absurd h

pub set_child-AreGood :
    (g : Goal) (k : ℕ) (n : Node) (ns : Nodes)
    → IsGood g n
    → AreGood false g ns
    → AreGood false g (set_child k n ns)
unfolding set_child
set_child-AreGood g k n nil h a = tt
set_child-AreGood g ℕ.zero n (cons m ns) h a = (h, a.1)
set_child-AreGood g (ℕ.suc k) n (cons m ns) h a = (a.0, set_child-AreGood g k n ns h a.1)

pub push_child-AreGood :
    (g : Goal) (ns : Nodes) (n : Node)
    → AreGood false g ns
    → IsGood g n
    → AreGood false g (push_child ns n)
unfolding push_child
push_child-AreGood g nil n a h = (h, tt)
push_child-AreGood g (cons m ns) n a h = (a.0, push_child-AreGood g ns n a.1 h)

pub lits-append : (s t : Str) → lits (s ++ t) ≡ lits s ++ lits t
lits-append [] t = refl
lits-append (c ∷ s) t = ap (◌∷◌ (lit c)) (lits-append s t)

pub after-after : (g : Goal) (s t : List Token) → after t (after s g) ≡ after (s ++ t) g
after-after g s t =
    fun_ext λ q. fun_ext λ c. ap (λ (p : List Token). g p c) (sym (append_assoc s t q))

pub after-append :
    (g : Goal) (s t : Str) → after (lits t) (after (lits s) g) ≡ after (lits (s ++ t)) g
after-append g s t = after-after g (lits s) (lits t) ∙ ap (λ p. after p g) (sym (lits-append s t))

-- A node whose path and flag are known.
pub node-IsGood :
    (g : Goal) (i : Info) (ns : Nodes) (s : Str) (w : Bool)
    → i.path ≡ s
    → i.wildchild ≡ w
    → IsPlain s
    → Handled (after (lits s) g) i.handle
    → AreGood w (after (lits s) g) ns
    → IsGood g (node i ns)
node-IsGood g i ns s w e f p h a = (
  subst (IsPlain) (sym e) p,
  subst (λ s. Handled (after (lits s) g) i.handle) (sym e) h,
  subst (λ s. AreGood i.wildchild (after (lits s) g) ns) (sym e)
      (subst (λ w. AreGood w (after (lits s) g) ns) (sym f) a),
)
