-- ===== src/Router/Radix/Lookup.antt =====
-- Static trees, and the handler that a path leads to in one.
use cppmhd.Prelude.{ℕ, ◌≡◌, false, none, some, [], ◌∷◌, Str, ◌==◌, if◌then◌else◌}
use cppmhd.Router.Node.{Node, Nodes, node, nil, cons, info, Handler, is_param, index_of}
use cppmhd.Router.Radix.Strip.{strip}

-- The text starts with the character.
abbrev pub Starts : ℕ → Str → Type 0
Starts c [] = ⊥
Starts c (x ∷ s) = x ≡ c

-- No wildcard, and one index for each child: the first character of the child's path, which no
-- other child of the node has.
abbrev mutual
  pub IsRadix : Node → Type 0
  IsRadix (node i ns) = (i.wildchild ≡ false) × (is_param i.type ≡ false) × IsIndexed i.indices ns

  pub IsIndexed : Str → Nodes → Type 0
  IsIndexed [] nil = Unit
  IsIndexed [] (cons n ns) = ⊥
  IsIndexed (c ∷ cs) nil = ⊥
  IsIndexed (c ∷ cs) (cons n ns) =
      Starts c (info n).path × (index_of c cs ≡ none) × IsRadix n × IsIndexed cs ns

-- The map that a tree stands for.
unfoldable mutual
  pub lookup : Node → Str → Handler
  lookup (node i ns) path = elim (strip i.path path) [
    | none ↦ none
    | some [] ↦ i.handle
    | some (c ∷ s) ↦ lookup_below i.indices ns c s
  ]

  pub lookup_below : Str → Nodes → ℕ → Str → Handler
  lookup_below [] ns c s = none
  lookup_below (x ∷ xs) nil c s = none
  lookup_below (x ∷ xs) (cons n ns) c s =
      if x == c then lookup n (c ∷ s) else lookup_below xs ns c s
