-- ===== src/Router/Radix/Steps.antt =====
-- What one round of `RawTree::insert` does at a static node whose path is a beginning of the
-- inserted one.
use cppmhd.Prelude.{
  ℕ, suc, ◌≡◌, refl, inl, inr, Bool, true, false, not, ◌&&◌, Option, none, some, List, [], ◌∷◌,
  ◌++◌, Str, str_eq, ==_iff, ◌==◌, if◌then◌else◌, is_some, length, arith, ap, Option-cases, sym,
  ◌∙◌, subst,
}
use cppmhd.Router.Node.{
  Info, Node, Nodes, node, nil, info, RouterNodeType, index_of, push_child, set_child, raw_node,
}
use cppmhd.Router.Insert.{
  static_end, Param, Insertion, returned, below, insert_child, set_handle, append_child, with_child,
  insert_new,
}
use cppmhd.Router.Radix.Strip.{strip, strip-append}
use cppmhd.Router.Radix.Prefix.{str_eq-strip, str_eq-append, IsPlain, IsPlain-front}
use cppmhd.Router.Radix.Lookup.{Starts, IsRadix, lookup, lookup_below}
use cppmhd.Router.Radix.Forwarding.{lookup_cases}
use cppmhd.Router.Radix.Children.{IsChild, lookup_below-none}
use cppmhd.Router.Radix.Updates.{
  IsIndexed-push, lookup_below-push, IsIndexed-set, lookup_below-set, lookup-leaf,
}

-- The call has added the path, unless it was there: the tree is static again and stands for the
-- map with that one change, and the flag says whether there was one.
pub record Inserts (n : Node) (path : Str) (ctrl : ℕ) (ps : List Param) (r : Insertion)
    : Type 0 where
  pub ok : Bool
  pub after : Node
  pub result : r ≡ returned ok after ps
  pub radix : IsRadix after
  pub starts : (c : ℕ) → Starts c (info n).path → Starts c path → Starts c (info after).path
  pub fresh : ok ≡ not (is_some (lookup n path))
  pub looked : (q : Str) → lookup after q ≡ (if ok && str_eq path q then some ctrl else lookup n q)

strip_self : (p : Str) → strip p p ≡ some []
unfolding strip
strip_self [] = refl
strip_self (x ∷ p) = ground (arith, strip_self p)

str_eq-nil : (c : ℕ) (s : Str) → str_eq (c ∷ s) [] ≡ false
unfolding str_eq
str_eq-nil c s = refl

str_eq-cons : (c : ℕ) (s : Str) (d : ℕ) (t : Str) → str_eq (c ∷ s) (d ∷ t) ≡ (c == d && str_eq s t)
unfolding str_eq
str_eq-cons c s d t = refl

lookup_below-eq :
    (xs : Str) (ns : Nodes) (c d : ℕ) (t : Str)
    → index_of c xs ≡ none
    → (c == d) ≡ true
    → lookup_below xs ns d t ≡ none
lookup_below-eq xs ns c d t h e =
    lookup_below-none xs ns d t (subst (λ x. index_of x xs ≡ none) ((==_iff c d).0 e) h)

module _ (ctrl : ℕ) (ps : List Param) where
  at_node-looked :
      (f : Info) (ns : Nodes) (q : Str) (o : Option Str)
      → strip f.path q ≡ o
      → lookup (node (record f { handle = some ctrl }) ns) q
        ≡ (if str_eq f.path q then some ctrl else lookup (node f ns) q)
  at_node-looked f ns q none e = ground (
    arith,
    lookup_cases (record f { handle = some ctrl }) ns q none e,
    lookup_cases f ns q none e,
    str_eq-strip f.path q,
  )
  at_node-looked f ns q (some []) e = ground (
    arith,
    lookup_cases (record f { handle = some ctrl }) ns q (some []) e,
    str_eq-strip f.path q,
  )
  at_node-looked f ns q (some (c ∷ s)) e = ground (
    arith,
    lookup_cases (record f { handle = some ctrl }) ns q (some (c ∷ s)) e,
    lookup_cases f ns q (some (c ∷ s)) e,
    str_eq-strip f.path q,
  )

  -- The path ends at the node.
  pub at_node-Inserts :
      (f : Info) (ns : Nodes)
      → IsRadix (node f ns)
      → Inserts (node f ns) f.path ctrl ps (set_handle (some ctrl) ps (node f ns))
  unfolding set_handle
  at_node-Inserts f ns h =
      let here = lookup_cases f ns f.path (some []) (strip_self f.path) in
      elim (Option-cases f.handle) [
        | inl free ↦ record {
          ok = true;
          after = node (record f { handle = some ctrl }) ns;
          result = ground arith;
          radix = h;
          starts = λ c p q. p;
          fresh = ground (arith, here);
          looked = λ q. at_node-looked f ns q (strip f.path q) refl;
        }
        | inr (old, used) ↦ record {
          ok = false;
          after = node f ns;
          result = ground arith;
          radix = h;
          starts = λ c p q. p;
          fresh = ground (arith, here);
          looked = λ q. refl;
        }
      ]

  pub insert_child_plain :
      (fuel : ℕ) (i : Info) (path : Str)
      → IsPlain path
      → insert_child (suc fuel) (node i nil) path (some ctrl) ps
        ≡ returned true (node (static_end path (some ctrl) i) nil) ps
  unfolding insert_child
  insert_child_plain fuel i path h = rw (insert_child, h)

  new_leaf :
      (f : Info) (ns : Nodes) (c : ℕ) (s : Str)
      → IsPlain (c ∷ s)
      → insert_new (node f ns) (c ∷ s) (some ctrl) ps
        ≡ returned true
            (append_child (node f ns) c (node (static_end (c ∷ s) (some ctrl) raw_node) nil))
            ps
  unfolding insert_new
  new_leaf f ns c s h = rw (
    IsPlain-front c s h,
    insert_child_plain (length (c ∷ s)) (record raw_node { type = RouterNodeType.static_part })
        (c ∷ s) h,
  )

  -- A change below the node, at the rest `c ∷ s` of the path, which changes no other first
  -- character.
  module _ (f g : Info) (ns ms : Nodes) (c : ℕ) (s : Str) (ok : Bool) (same : f.path ≡ g.path)
      (kept : f.handle ≡ g.handle)
      (changed : (d : ℕ) (t : Str)
        → lookup_below g.indices ms d t ≡ (
            if ok && str_eq (c ∷ s) (d ∷ t)
            then some ctrl
            else lookup_below f.indices ns d t)) where
    below-looked :
        (q : Str) (o : Option Str)
        → strip f.path q ≡ o
        → lookup (node g ms) q
          ≡ (if ok && str_eq (f.path ++ c ∷ s) q then some ctrl else lookup (node f ns) q)
    below-looked q none e = ground (
      arith,
      lookup_cases g ms q none (ap (λ p. strip p q) (sym same) ∙ e),
      lookup_cases f ns q none e,
      str_eq-append f.path (c ∷ s) q,
    )
    below-looked q (some []) e = ground (
      arith,
      lookup_cases g ms q (some []) (ap (λ p. strip p q) (sym same) ∙ e),
      lookup_cases f ns q (some []) e,
      str_eq-append f.path (c ∷ s) q,
      str_eq-nil c s,
    )
    below-looked q (some (d ∷ t)) e = ground (
      arith,
      lookup_cases g ms q (some (d ∷ t)) (ap (λ p. strip p q) (sym same) ∙ e),
      lookup_cases f ns q (some (d ∷ t)) e,
      str_eq-append f.path (c ∷ s) q,
      changed d t,
    )

  -- The path goes on with a character that no child has.
  pub new-Inserts :
      (f : Info) (ns : Nodes) (c : ℕ) (s : Str)
      → IsRadix (node f ns)
      → IsPlain (c ∷ s)
      → index_of c f.indices ≡ none
      → Inserts
          (node f ns)
          (f.path ++ c ∷ s)
          ctrl
          ps
          (insert_new (node f ns) (c ∷ s) (some ctrl) ps)
  unfolding append_child
  new-Inserts f ns c s h plain e =
      let leaf : Node = node (static_end (c ∷ s) (some ctrl) raw_node) nil in
      let g : Info = record f { indices = f.indices ++ c ∷ [] } in
      let leaf_radix : IsRadix leaf = (refl, refl, tt) in
      record {
        ok = true;
        after = append_child (node f ns) c leaf;
        result = new_leaf f ns c s plain;
        radix = (h.0, h.1, IsIndexed-push c leaf leaf_radix refl f.indices ns h.2 e);
        starts = λ d p q. p;
        fresh = ground (
          arith,
          lookup_cases f ns (f.path ++ c ∷ s) (some (c ∷ s)) (strip-append f.path (c ∷ s)),
          lookup_below-none f.indices ns c s e,
        );
        looked = λ q.
            below-looked f g ns (push_child ns leaf) c s true refl refl
              (λ d t. ground (
                arith,
                lookup_below-push c leaf leaf_radix refl f.indices ns d t h.2 e,
                lookup-leaf (c ∷ s) (some ctrl) raw_node (d ∷ t),
                str_eq-cons c s d t,
                lookup_below-eq f.indices ns c d t e,
              ))
              q (strip f.path q) refl;
      }

  -- The path goes on at a child.
  pub down-Inserts :
      (f : Info) (ns : Nodes) (c : ℕ) (s : Str) (k : ℕ) (m : Node) (r : Insertion)
      → IsRadix (node f ns)
      → index_of c f.indices ≡ some k
      → IsChild c k f.indices ns m
      → Inserts m (c ∷ s) ctrl ps r
      → Inserts (node f ns) (f.path ++ c ∷ s) ctrl ps (below (λ d. with_child (node f ns) k d) r)
  down-Inserts f ns c s k m r h e d v =
      let begins = v.starts c d.starts refl in
      record {
        ok = v.ok;
        after = node f (set_child k v.after ns);
        result = ap (below (λ d. with_child (node f ns) k d)) v.result;
        radix = (h.0, h.1, IsIndexed-set c v.after v.radix begins k f.indices ns h.2 e);
        starts = λ d p q. p;
        fresh =
            v.fresh
            ∙ ap (λ o. not (is_some o))
                (sym (
                  lookup_cases f ns (f.path ++ c ∷ s) (some (c ∷ s)) (strip-append f.path (c ∷ s))
                  ∙ d.looked s));
        looked = λ q.
            below-looked f f ns (set_child k v.after ns) c s v.ok refl refl
              (λ x t. ground (
                arith,
                lookup_below-set c v.after v.radix begins k f.indices ns x t h.2 e,
                str_eq-cons c s x t,
                v.looked (x ∷ t),
                d.looked t,
                ==_iff c x,
              ))
              q (strip f.path q) refl;
      }
