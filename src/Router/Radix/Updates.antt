-- ===== src/Router/Radix/Updates.antt =====
-- What each change to a static node does to the map that the tree stands for.
use cppmhd.Prelude.{
  ℕ, zero, suc, ◌≡◌, refl, true, false, Option, none, some, [], ◌∷◌, ◌++◌, Str, str_eq, ◌==◌,
  if◌then◌else◌, arith, Option-cases, subst,
}
use cppmhd.Router.Node.{
  Info, Node, Nodes, node, nil, cons, info, Handler, index_of, push_child, set_child,
}
use cppmhd.Router.Insert.{static_end}
use cppmhd.Router.Radix.Strip.{strip}
use cppmhd.Router.Radix.Prefix.{str_eq-strip}
use cppmhd.Router.Radix.Lookup.{Starts, IsRadix, IsIndexed, lookup, lookup_below}

module _ (c : ℕ) (m : Node) (radix : IsRadix m) (starts : Starts c (info m).path) where
  index_of-append :
      (x : ℕ) (xs : Str)
      → (x == c) ≡ false
      → index_of x xs ≡ none
      → index_of x (xs ++ c ∷ []) ≡ none
  unfolding index_of
  index_of-append x [] e h = ground arith
  index_of-append x (y ∷ xs) e h =
      ground (arith, index_of-append x xs e, Option-cases (index_of x xs))

  -- A new last child keeps the indices in order.
  pub IsIndexed-push :
      (xs : Str) (ns : Nodes)
      → IsIndexed xs ns
      → index_of c xs ≡ none
      → IsIndexed (xs ++ c ∷ []) (push_child ns m)
  unfolding push_child index_of
  IsIndexed-push [] nil h e = (starts, refl, radix, tt)
  IsIndexed-push [] (cons n ns) h e = absurd h
  IsIndexed-push (x ∷ xs) nil h e = absurd h
  IsIndexed-push (x ∷ xs) (cons n ns) h e = (
    h.0,
    index_of-append x xs (ground arith) h.1,
    h.2,
    IsIndexed-push xs ns h.3 (ground (arith, Option-cases (index_of c xs))),
  )

  pub lookup_below-push :
      (xs : Str) (ns : Nodes) (d : ℕ) (s : Str)
      → IsIndexed xs ns
      → index_of c xs ≡ none
      → lookup_below (xs ++ c ∷ []) (push_child ns m) d s
        ≡ (if c == d then lookup m (d ∷ s) else lookup_below xs ns d s)
  unfolding push_child index_of lookup
  lookup_below-push [] nil d s h e = refl
  lookup_below-push [] (cons n ns) d s h e = absurd h
  lookup_below-push (x ∷ xs) nil d s h e = absurd h
  lookup_below-push (x ∷ xs) (cons n ns) d s h e =
      ground (arith, lookup_below-push xs ns d s h.3, Option-cases (index_of c xs))

  -- So does a new node in the place of a child.
  pub IsIndexed-set :
      (k : ℕ) (xs : Str) (ns : Nodes)
      → IsIndexed xs ns
      → index_of c xs ≡ some k
      → IsIndexed xs (set_child k m ns)
  unfolding set_child index_of
  IsIndexed-set k [] ns h e = cc
  IsIndexed-set k (x ∷ xs) nil h e = absurd h
  IsIndexed-set zero (x ∷ xs) (cons n ns) h e = (
    subst (λ t. Starts t (info m).path) (ground (arith, Option-cases (index_of c xs))) starts,
    h.1,
    radix,
    h.3,
  )
  IsIndexed-set (suc k) (x ∷ xs) (cons n ns) h e =
      (h.0, h.1, h.2, IsIndexed-set k xs ns h.3 (ground (arith, Option-cases (index_of c xs))))

  pub lookup_below-set :
      (k : ℕ) (xs : Str) (ns : Nodes) (d : ℕ) (s : Str)
      → IsIndexed xs ns
      → index_of c xs ≡ some k
      → lookup_below xs (set_child k m ns) d s
        ≡ (if c == d then lookup m (d ∷ s) else lookup_below xs ns d s)
  unfolding set_child index_of lookup
  lookup_below-set k [] ns d s h e = cc
  lookup_below-set k (x ∷ xs) nil d s h e = absurd h
  lookup_below-set zero (x ∷ xs) (cons n ns) d s h e = ground (arith, Option-cases (index_of c xs))
  lookup_below-set (suc k) (x ∷ xs) (cons n ns) d s h e =
      ground (arith, lookup_below-set k xs ns d s h.3, Option-cases (index_of c xs))

-- A leaf stands for one path.
pub lookup-leaf :
    (path : Str) (ctrl : Handler) (i : Info) (q : Str)
    → lookup (node (static_end path ctrl i) nil) q ≡ (if str_eq path q then ctrl else none)
unfolding lookup
lookup-leaf path ctrl i q = rw (str_eq-strip path q) (leaf (strip path q))
  where
    leaf :
        (o : Option Str)
        → elim o [ none ↦ none | some [] ↦ ctrl | some (c ∷ s) ↦ lookup_below [] nil c s ]
          ≡ (if elim o [ none ↦ false | some [] ↦ true | some (c ∷ s) ↦ false ] then ctrl else none)
    leaf none = refl
    leaf (some []) = refl
    leaf (some (c ∷ s)) = refl
