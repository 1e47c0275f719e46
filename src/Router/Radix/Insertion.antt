-- ===== src/Router/Radix/Insertion.antt =====
-- `RawTree::insert` on a static tree adds one path to the map that the tree stands for.
use cppmhd.Prelude.{
  Bool, ℕ, zero, suc, ◌<◌, ◌≡◌, refl, ◌≢◌, inl, inr, true, false, not, ◌&&◌, Option, none, some,
  List, [], ◌∷◌, ◌++◌, Str, str_eq, ltb, if◌then◌else◌, is_some, length, length-append, drop,
  drop-append, arith, ap, ap₂, Option-cases, sym, ◌∙◌, subst,
}
use mathlib.Core.List.{append-nil}
use cppmhd.Router.Node.{Info, Node, Nodes, node, info, children, index_of, child_at, height}
use cppmhd.Router.Insert.{
  returned, Param, find_longest_common_prefix, Insertion, below, split_node, split_if, set_handle,
  with_child, insert_new, to_child, new_child, choose, insert_loop,
}
use cppmhd.Router.Radix.Prefix.{Differ, parting, common-Starts, IsPlain, IsPlain-append}
use cppmhd.Router.Radix.Lookup.{Starts, IsRadix, lookup}
use cppmhd.Router.Radix.Children.{IsChild, IsChild-found, height-node}
use cppmhd.Router.Radix.Steps.{Inserts, at_node-Inserts, new-Inserts, down-Inserts}
use cppmhd.Router.Radix.Cutting.{
  loop-end, loop-new, loop-down, choose-index, top, split_parts, split-IsRadix, split-lookup,
}

ltb-short : (n : ℕ) (a xs : Str) → n ≡ length a → xs ≡ a ++ [] → ltb n (length xs) ≡ false
ltb-short n a xs h e = ground (arith, ap length e, length-append a [])

ltb-long :
    (n : ℕ) (a xs : Str) (c : ℕ) (s : Str)
    → n ≡ length a
    → xs ≡ a ++ c ∷ s
    → ltb n (length xs) ≡ true
ltb-long n a xs c s h e = ground (arith, ap length e, length-append a (c ∷ s))

drop-rest : (n : ℕ) (a xs l : Str) → n ≡ length a → xs ≡ a ++ l → drop n xs ≡ l
drop-rest n a xs l h e = ap₂ drop h e ∙ drop-append a l

other_index : (c x k : ℕ) → c ≢ x → index_of c (x ∷ []) ≢ some k
unfolding index_of
other_index c x k h e = ground arith

-- The same for another node that stands for the same map.
Inserts-transfer :
    (n m : Node) (path : Str) (ctrl : ℕ) (ps : List Param) (r s : Insertion)
    → Inserts m path ctrl ps r
    → s ≡ r
    → ((q : Str) → lookup m q ≡ lookup n q)
    → ((c : ℕ) → Starts c (info n).path → Starts c path → Starts c (info m).path)
    → Inserts n path ctrl ps s
Inserts-transfer n m path ctrl ps r s v same maps begins = record {
  ok = v.ok;
  after = v.after;
  result = same ∙ v.result;
  radix = v.radix;
  starts = λ c h k. v.starts c (begins c h k) k;
  fresh = v.fresh ∙ ap (λ o. not (is_some o)) (maps path);
  looked = λ q.
      v.looked q ∙ ap (λ (o : Option ℕ). if v.ok && str_eq path q then some ctrl else o) (maps q);
}

module _ (ctrl : ℕ) (ps : List Param) (fuel : ℕ) (f : Info) (ns : Nodes) (path : Str)
    (h : IsRadix (node f ns)) (plain : IsPlain path) where
  abbrev loop : Insertion
  loop = insert_loop (suc fuel) (node f ns) path (some ctrl) ps

  abbrev at : ℕ
  at = find_longest_common_prefix path f.path

  -- A part `c ∷ s` of the path is left behind the node `g`, which may be the upper half of a cut.
  behind :
      (g : Info) (ms : Nodes) (c : ℕ) (s : Str)
      → split_if at path (node f ns) ≡ node g ms
      → drop at path ≡ c ∷ s
      → ltb at (length path) ≡ true
      → IsRadix (node g ms)
      → path ≡ g.path ++ c ∷ s
      → ((k : ℕ) (m : Node)
          → index_of c g.indices ≡ some k
          → IsChild c k g.indices ms m
          → Inserts m (c ∷ s) ctrl ps (insert_loop fuel m (c ∷ s) (some ctrl) ps))
      → Inserts (node g ms) path ctrl ps loop
  behind g ms c s cut rest long radix e down =
      subst (λ p. Inserts (node g ms) p ctrl ps loop) (sym e)
        (elim (Option-cases (index_of c g.indices)) [
          | inl a ↦
              let way = chosen ∙ rw a in
              unchanged
                (new-Inserts ctrl ps g ms c s radix
                  (IsPlain-append g.path (c ∷ s) (subst IsPlain e plain)) a)
                (loop-new ctrl ps fuel (node f ns) path long way
                  ∙ ap₂ (λ n p. insert_new n p (some ctrl) ps) cut rest)
          | inr (k, a) ↦
              let way = chosen ∙ rw a in
              let (m, d) = IsChild-found c k g.indices ms radix.2 a in
              unchanged (down-Inserts ctrl ps g ms c s k m _ radix a d (down k m a d)) (
                loop-down ctrl ps fuel (node f ns) path k m long way
                  (ap (λ n. child_at k (children n)) cut ∙ d.at)
                ∙ ap₂ (λ n p. below (λ d. with_child n k d) (insert_loop fuel m p (some ctrl) ps))
                    cut rest)
        ])
    where
      chosen :
          choose (split_if at path (node f ns)) (drop at path)
          ≡ elim (index_of c g.indices) [ none ↦ new_child | some k ↦ to_child k ]
      chosen = ap₂ choose cut rest ∙ choose-index g ms c s radix

      unchanged :
          {r : Insertion}
          → Inserts (node g ms) (g.path ++ c ∷ s) ctrl ps r
          → loop ≡ r
          → Inserts (node g ms) (g.path ++ c ∷ s) ctrl ps loop
      unchanged {r} v same =
          Inserts-transfer (node g ms) (node g ms) (g.path ++ c ∷ s) ctrl ps r loop v same
            (λ q. refl) (λ d p q. p)

  -- The path ends at the node `g`.
  ending :
      (g : Info) (ms : Nodes)
      → split_if at path (node f ns) ≡ node g ms
      → ltb at (length path) ≡ false
      → IsRadix (node g ms)
      → path ≡ g.path
      → Inserts (node g ms) path ctrl ps loop
  ending g ms cut short radix e =
      subst (λ p. Inserts (node g ms) p ctrl ps loop) (sym e)
        (Inserts-transfer (node g ms) (node g ms) g.path ctrl ps _ loop
          (at_node-Inserts ctrl ps g ms radix)
          (loop-end ctrl ps fuel (node f ns) path short ∙ ap (set_handle (some ctrl) ps) cut)
          (λ q. refl) (λ d p q. p))

  -- Any child takes its part of the path.
  abbrev Down : Type 0
  Down =
      (c : ℕ) (s : Str) (k : ℕ) (m : Node)
      → IsPlain (c ∷ s)
      → IsChild c k f.indices ns m
      → Inserts m (c ∷ s) ctrl ps (insert_loop fuel m (c ∷ s) (some ctrl) ps)

  round-Inserts :
      (a l r : Str)
      → path ≡ a ++ l
      → f.path ≡ a ++ r
      → at ≡ length a
      → Differ l r
      → ((c : ℕ) → Starts c f.path → Starts c path → Starts c a)
      → Down
      → Inserts (node f ns) path ctrl ps loop
  round-Inserts a [] [] e k n d begins down =
      ending f ns (rw (ltb-short at a f.path n k)) (ltb-short at a path n e) h (e ∙ sym k)
  round-Inserts a (c ∷ s) [] e k n d begins down =
      let same = e ∙ ap (λ p. p ++ c ∷ s) (sym (k ∙ append-nil a)) in
      behind f ns c s (rw (ltb-short at a f.path n k)) (drop-rest at a path (c ∷ s) n e)
        (ltb-long at a path c s n e) h same
        (λ j m i found. down c s j m (IsPlain-append a (c ∷ s) (subst IsPlain e plain)) found)
  round-Inserts a [] (x ∷ t) e k n d begins down =
      let cut = split_parts f ns a x t k path [] e in
      Inserts-transfer (node f ns) _ path ctrl ps loop loop
        (ending (top f ns a x t k) _
          (rw (ltb-long at a f.path x t n k) (ap (λ i. split_node i path (node f ns)) n ∙ cut))
          (ltb-short at a path n e) (split-IsRadix f ns a x t k h) (e ∙ append-nil a))
        refl (split-lookup f ns a x t k) begins
  round-Inserts a (c ∷ s) (x ∷ t) e k n d begins down =
      let cut = split_parts f ns a x t k path (c ∷ s) e in
      Inserts-transfer (node f ns) _ path ctrl ps loop loop
        (behind (top f ns a x t k) _ c s
          (rw (ltb-long at a f.path x t n k) (ap (λ i. split_node i path (node f ns)) n ∙ cut))
          (drop-rest at a path (c ∷ s) n e) (ltb-long at a path c s n e)
          (split-IsRadix f ns a x t k h) e (λ j m i found. absurd (other_index c x j d i)))
        refl (split-lookup f ns a x t k) begins

-- With more fuel than the tree is high, inserting a path without wildcards ends: it changes the
-- tree's map at this path alone, and is refused exactly if the path has a handler.
pub insert_loop-Inserts :
    (ctrl : ℕ) (ps : List Param) (fuel : ℕ) (n : Node) (path : Str)
    → IsRadix n
    → IsPlain path
    → height n < fuel
    → Inserts n path ctrl ps (insert_loop fuel n path (some ctrl) ps)
insert_loop-Inserts ctrl ps zero n path h plain lt = elim lt [ ]
insert_loop-Inserts ctrl ps (suc fuel) (node f ns) path h plain lt =
    let p = parting path f.path in
    round-Inserts ctrl ps fuel f ns path h plain p.common p.left p.right p.first_eq p.second_eq p.at
      p.differ (λ c u v. common-Starts c path f.path p v u)
      (λ c s k m simple d.
        insert_loop-Inserts ctrl ps fuel m (c ∷ s) d.radix simple
          (omega (arith, d.lower, height-node f ns)))

-- Inserting a path without wildcards into a static tree, on more fuel than the tree is high, ends and
-- returns. The tree stays static, and the map it stands for gets the handler at that path and keeps
-- every other; if the path has a handler already, the call returns false and the map stays as it was.
-- The parameter queue is left alone.
pub insert_loop-lookup :
    (ctrl : ℕ) (ps : List Param) (fuel : ℕ) (n : Node) (path : Str)
    → IsRadix n
    → IsPlain path
    → height n < fuel
    → (ok : Bool) × (after : Node) × (insert_loop fuel n path (some ctrl) ps ≡ returned ok after ps)
      × IsRadix after
      × (ok ≡ not (is_some (lookup n path)))
      × ((q : Str) → lookup after q ≡ (if ok && str_eq path q then some ctrl else lookup n q))
insert_loop-lookup ctrl ps fuel n path h plain lt =
    let i = insert_loop-Inserts ctrl ps fuel n path h plain lt in
    (i.ok, i.after, i.result, i.radix, i.fresh, i.looked)
