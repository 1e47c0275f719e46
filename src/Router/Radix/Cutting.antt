-- ===== src/Router/Radix/Cutting.antt =====
-- The rounds of `RawTree::insert` as equations, and the cut of a static node in two.
use cppmhd.Prelude.{
  ℕ, suc, ◌≡◌, refl, inl, inr, true, false, Option, none, some, List, [], ◌∷◌, ◌++◌, Str, ◌==◌, ltb,
  length, drop, drop-append, take, ap, Bool-cases, sym, ◌∙◌,
}
use mathlib.Core.Option
use cppmhd.Utils.Regex.{no_regex}
use cppmhd.Router.Node.{
  Info, Node, Nodes, node, nil, cons, info, children, RouterNodeType, index_of, child_at,
}
use cppmhd.Router.Insert.{
  Param, find_longest_common_prefix, below, split_node, split_if, set_handle, with_child,
  insert_new, to_child, new_child, choose, insert_loop,
}
use cppmhd.Router.Radix.Strip.{strip, strip_twice}
use cppmhd.Router.Radix.Prefix.{take_common}
use cppmhd.Router.Radix.Lookup.{IsRadix, lookup, lookup_below}
use cppmhd.Router.Radix.Forwarding.{lookup_cases}

-- The rounds of the loop.
module _ (ctrl : ℕ) (ps : List Param) (fuel : ℕ) (n : Node) (path : Str) where
  abbrev pub shared : ℕ
  shared = find_longest_common_prefix path (info n).path

  pub loop-end :
      ltb shared (length path) ≡ false
      → insert_loop (suc fuel) n path (some ctrl) ps
        ≡ set_handle (some ctrl) ps (split_if shared path n)
  unfolding insert_loop
  loop-end e = rw (insert_loop, e)

  pub loop-new :
      ltb shared (length path) ≡ true
      → choose (split_if shared path n) (drop shared path) ≡ new_child
      → insert_loop (suc fuel) n path (some ctrl) ps
        ≡ insert_new (split_if shared path n) (drop shared path) (some ctrl) ps
  unfolding insert_loop
  loop-new e way = rw (insert_loop, e, way)

  pub loop-down :
      (k : ℕ) (c : Node)
      → ltb shared (length path) ≡ true
      → choose (split_if shared path n) (drop shared path) ≡ to_child k
      → child_at k (children (split_if shared path n)) ≡ some c
      → insert_loop (suc fuel) n path (some ctrl) ps
        ≡ below
            (λ d. with_child (split_if shared path n) k d)
            (insert_loop fuel c (drop shared path) (some ctrl) ps)
  unfolding insert_loop
  loop-down k c e way at = rw (insert_loop, e, way, at)

pub choose-index :
    (f : Info) (ns : Nodes) (c : ℕ) (s : Str)
    → IsRadix (node f ns)
    → choose (node f ns) (c ∷ s)
      ≡ elim (index_of c f.indices) [ none ↦ new_child | some k ↦ to_child k ]
unfolding choose
choose-index f ns c s h = rw (h.0, h.1)

-- Cutting a node keeps the map.
module _ (f : Info) (ns : Nodes) (a : Str) (c : ℕ) (t : Str) (cut : f.path ≡ a ++ c ∷ t) where
  abbrev pub top : Info
  top = record f {
    indices = c ∷ [];
    path = a;
    type = RouterNodeType.static_part;
    handle = none;
    re = no_regex;
    wildchild = false;
  }

  abbrev pub bottom : Info
  bottom = record f { path = c ∷ t }

  pub split_parts :
      (path r : Str)
      → path ≡ a ++ r
      → split_node (length a) path (node f ns) ≡ node top (cons (node bottom ns) nil)
  unfolding split_node
  split_parts path r e = λ i.
      node (record top { indices = take 1 (rest i); path = begin i })
        (cons (node (record f { path = rest i }) ns) nil)
    where
      rest : drop (length a) f.path ≡ c ∷ t
      rest = ap (drop (length a)) cut ∙ drop-append a (c ∷ t)

      begin : take (length a) path ≡ a
      begin = ap (take (length a)) e ∙ take_common a r

  pub split-IsRadix : IsRadix (node f ns) → IsRadix (node top (cons (node bottom ns) nil))
  unfolding index_of
  split-IsRadix h = (refl, refl, (refl, refl, h, tt))

  whole :
      (q : Str) (o : Option Str) → strip a q ≡ o → strip f.path q ≡ Option.bind o (strip (c ∷ t))
  whole q o e =
      ap (λ p. strip p q) cut
      ∙ strip_twice a (c ∷ t) q
      ∙ ap (λ o'. Option.bind o' (strip (c ∷ t))) e

  lookup-bottom :
      (q : Str) (d : ℕ) (s : Str)
      → strip a q ≡ some (d ∷ s)
      → lookup (node bottom ns) (d ∷ s) ≡ lookup (node f ns) q
  unfolding Option.bind
  lookup-bottom q d s e =
      lookup_cases bottom ns (d ∷ s) (strip (c ∷ t) (d ∷ s)) refl
      ∙ sym (lookup_cases f ns q (strip (c ∷ t) (d ∷ s)) (whole q (some (d ∷ s)) e))

  missed :
      (q : Str) (d : ℕ) (s : Str)
      → strip a q ≡ some (d ∷ s)
      → (c == d) ≡ false
      → lookup (node f ns) q ≡ none
  unfolding Option.bind strip
  missed q d s e h = lookup_cases f ns q none (whole q (some (d ∷ s)) e ∙ rw h)

  below_one :
      (d : ℕ) (s : Str)
      → (c == d) ≡ true
      → lookup_below (c ∷ []) (cons (node bottom ns) nil) d s ≡ lookup (node bottom ns) (d ∷ s)
  unfolding lookup
  below_one d s h = rw h

  below_other :
      (d : ℕ) (s : Str)
      → (c == d) ≡ false
      → lookup_below (c ∷ []) (cons (node bottom ns) nil) d s ≡ none
  unfolding lookup
  below_other d s h = rw h

  cut_lookup :
      (q : Str) (o : Option Str)
      → strip a q ≡ o
      → lookup (node top (cons (node bottom ns) nil)) q ≡ lookup (node f ns) q
  unfolding Option.bind strip
  cut_lookup q none e =
      lookup_cases top (cons (node bottom ns) nil) q none e
      ∙ sym (lookup_cases f ns q none (whole q none e))
  cut_lookup q (some []) e =
      lookup_cases top (cons (node bottom ns) nil) q (some []) e
      ∙ sym (lookup_cases f ns q none (whole q (some []) e))
  cut_lookup q (some (d ∷ s)) e = elim (Bool-cases (c == d)) [
    | inl h ↦
        lookup_cases top (cons (node bottom ns) nil) q (some (d ∷ s)) e
        ∙ below_one d s h
        ∙ lookup-bottom q d s e
    | inr h ↦
        lookup_cases top (cons (node bottom ns) nil) q (some (d ∷ s)) e
        ∙ below_other d s h
        ∙ sym (missed q d s e h)
  ]

  pub split-lookup :
      (q : Str) → lookup (node top (cons (node bottom ns) nil)) q ≡ lookup (node f ns) q
  split-lookup q = cut_lookup q (strip a q) refl
