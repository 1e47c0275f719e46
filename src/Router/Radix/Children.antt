-- ===== src/Router/Radix/Children.antt =====
-- The child that an index of a static node points to.
use cppmhd.Prelude.{
  ℕ, suc, ◌≤◌, ◌≡◌, refl, inl, inr, true, false, none, some, [], ◌∷◌, Str, ◌==◌, arith, Bool-cases,
  Option-cases, ==_iff,
}
use cppmhd.Router.Node.{
  Info, Node, Nodes, node, nil, cons, info, index_of, child_at, height, height_nodes,
}
use cppmhd.Router.Radix.Lookup.{Starts, IsRadix, IsIndexed, lookup, lookup_below}

-- What an index finds among the children.
pub record IsChild (c k : ℕ) (xs : Str) (ns : Nodes) (n : Node) : Type 0 where
  pub at : child_at k ns ≡ some n
  pub radix : IsRadix n
  pub starts : Starts c (info n).path
  pub lower : height n ≤ height_nodes ns
  pub looked : (s : Str) → lookup_below xs ns c s ≡ lookup n (c ∷ s)

pub height-node : (i : Info) (ns : Nodes) → height (node i ns) ≡ suc (height_nodes ns)
unfolding height
height-node i ns = refl

pub lookup_below-none :
    (xs : Str) (ns : Nodes) (c : ℕ) (s : Str) → index_of c xs ≡ none → lookup_below xs ns c s ≡ none
unfolding lookup index_of
lookup_below-none [] ns c s h = refl
lookup_below-none (x ∷ xs) nil c s h = refl
lookup_below-none (x ∷ xs) (cons n ns) c s h =
    ground (arith, Option-cases (index_of c xs), lookup_below-none xs ns c s)

module _ (c : ℕ) where
  -- The first child has the index.
  IsChild-here :
      (x : ℕ) (xs : Str) (n : Node) (ns : Nodes)
      → IsIndexed (x ∷ xs) (cons n ns)
      → (x == c) ≡ true
      → IsChild c 0 (x ∷ xs) (cons n ns) n
  unfolding lookup child_at height
  IsChild-here x xs n ns h e = record {
    at = refl;
    radix = h.2;
    starts = rw (← (==_iff x c).0 e) (h.0);
    lower = omega arith;
    looked = λ s. rw e;
  }

  -- A later child has it.
  IsChild-later :
      (x k : ℕ) (xs : Str) (n m : Node) (ns : Nodes)
      → (x == c) ≡ false
      → IsChild c k xs ns m
      → IsChild c (suc k) (x ∷ xs) (cons n ns) m
  unfolding lookup child_at height
  IsChild-later x k xs n m ns e d = record {
    at = d.at;
    radix = d.radix;
    starts = d.starts;
    lower = omega (arith, d.lower);
    looked = λ s. rw e (d.looked s);
  }

  index_here : (x k : ℕ) (xs : Str) → (x == c) ≡ true → index_of c (x ∷ xs) ≡ some k → k ≡ 0
  unfolding index_of
  index_here x k xs e h = ground arith

  index_later :
      (x k : ℕ) (xs : Str)
      → (x == c) ≡ false
      → index_of c (x ∷ xs) ≡ some k
      → (j : ℕ) × (k ≡ suc j) × (index_of c xs ≡ some j)
  unfolding index_of
  index_later x k xs e h = elim (Option-cases (index_of c xs)) [
    | inl a ↦ ground arith
    | inr (j, a) ↦ (j, ground arith, a)
  ]

  pub IsChild-found :
      (k : ℕ) (xs : Str) (ns : Nodes)
      → IsIndexed xs ns
      → index_of c xs ≡ some k
      → (n : Node) × IsChild c k xs ns n
  unfolding index_of
  IsChild-found k [] ns h e = cc
  IsChild-found k (x ∷ xs) nil h e = absurd h
  IsChild-found k (x ∷ xs) (cons n ns) h e = elim (Bool-cases (x == c)) [
    | inl hit ↦ (n, rw (index_here x k xs hit e) (IsChild-here x xs n ns h hit))
    | inr miss ↦
        let (j, same, at) = index_later x k xs miss e in
        let (m, d) = IsChild-found j xs ns h.3 at in
        (m, rw same (IsChild-later x j xs n m ns miss d))
  ]
