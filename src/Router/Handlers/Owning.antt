-- ===== src/Router/Handlers/Owning.antt =====
-- Trees whose handlers all pass a test.
use cppmhd.Prelude.{ℕ, zero, suc, ◌≡◌, refl, Bool, true, ◌&&◌, none, some, arith}
use cppmhd.Router.Node.{
  Node, Nodes, node, nil, cons, info, children, Handler, child_at, set_child, push_child,
}

abbrev pub owned : (ℕ → Bool) → Handler → Bool
owned p none = true
owned p (some c) = p c

unfoldable mutual
  pub owns : (ℕ → Bool) → Node → Bool
  owns p (node i ns) = owned p i.handle && owns_nodes p ns

  pub owns_nodes : (ℕ → Bool) → Nodes → Bool
  owns_nodes p nil = true
  owns_nodes p (cons n ns) = owns p n && owns_nodes p ns

module _ (p : ℕ → Bool) where
  pub owns-handle : (n : Node) → owns p n ≡ true → owned p (info n).handle ≡ true
  unfolding owns
  owns-handle (node i ns) h = ground (arith, h)

  pub owns-children : (n : Node) → owns p n ≡ true → owns_nodes p (children n) ≡ true
  unfolding owns
  owns-children (node i ns) h = ground (arith, h)

  child_at-owns :
      (k : ℕ) (ns : Nodes) (c : Node)
      → owns_nodes p ns ≡ true
      → child_at k ns ≡ some c
      → owns p c ≡ true
  unfolding owns child_at
  child_at-owns k nil c h e = cc
  child_at-owns zero (cons n ns) c h e = ground (arith, h, e)
  child_at-owns (suc k) (cons n ns) c h e = child_at-owns k ns c (ground (arith, h)) e

  pub child-owns :
      (k : ℕ) (n c : Node) → owns p n ≡ true → child_at k (children n) ≡ some c → owns p c ≡ true
  child-owns k n c h e = child_at-owns k (children n) c (owns-children n h) e

  pub set_child-owns :
      (k : ℕ) (n : Node) (ns : Nodes)
      → owns p n ≡ true
      → owns_nodes p ns ≡ true
      → owns_nodes p (set_child k n ns) ≡ true
  unfolding owns set_child
  set_child-owns k n nil h g = refl
  set_child-owns zero n (cons m ns) h g = ground (arith, h, g)
  set_child-owns (suc k) n (cons m ns) h g = ground (arith, g, set_child-owns k n ns h)

  pub push_child-owns :
      (ns : Nodes) (n : Node)
      → owns_nodes p ns ≡ true
      → owns p n ≡ true
      → owns_nodes p (push_child ns n) ≡ true
  unfolding owns push_child
  push_child-owns nil n h g = ground (arith, g)
  push_child-owns (cons m ns) n h g = ground (arith, h, push_child-owns ns n)
