-- ===== src/Router/Table/Growing.antt =====
-- `RawBuilder::insert` of lib/src/router.cc with a static route: one change to the table.
use cppmhd.Prelude.{
  ℕ, ◌≡◌, refl, inl, inr, Bool, true, false, not, ◌&&◌, some, List, [], ◌∷◌, Str, str_eq, ◌==◌,
  if◌then◌else◌, is_some, arith, ap, Bool-cases, ◌∙◌, All,
}
use cppmhd.Core.{HttpMethod, method_index}
use cppmhd.Utils.Regex.{Pcre}
use cppmhd.Router.Forward.{RouterTrees}
use cppmhd.Router.Builder.{Added, Route, Built, built, insert_route}
use cppmhd.Router.Table.Paths.{IsStatic}
use cppmhd.Router.Table.Roots.{fresh_root, lookup-fresh_root, IsRoot, Adds, add_route-Adds}
use cppmhd.Router.Table.Trees.{look, AreRoots, AreDistinct}

-- What a static route does to the trees.
pub record Grows (ts : List RouterTrees) (r : Route) (b : Built) : Type 0 where
  pub ok : Bool
  pub after : List RouterTrees
  pub result : b ≡ built ok after
  pub roots : AreRoots after
  pub distinct : AreDistinct after
  pub methods :
      (k : ℕ)
      → (method_index r.mtd == k) ≡ false
      → All (λ t. (method_index t.mtd == k) ≡ false) ts
      → All (λ t. (method_index t.mtd == k) ≡ false) after
  pub fresh : ok ≡ not (is_some (look ts r.mtd r.path))
  pub looked :
      (m : HttpMethod) (q : Str)
      → look after m q ≡ (
          if ok && (method_index r.mtd == method_index m && str_eq r.path q)
          then some r.ctrl
          else look ts m q)

new_tree-Grows :
    (r : Route) (x : Added)
    → Adds fresh_root r.path r.ctrl x
    → Grows [] r (elim x [
      | Added.added ok root ↦ built ok (record { mtd = r.mtd; root = root } ∷ [])
      | Added.broken ↦ Built.broken
    ])
unfolding look
new_tree-Grows r x a = record {
  ok = a.ok;
  after = record { mtd = r.mtd; root = a.after } ∷ [];
  result = rw a.result;
  roots = (a.root, tt);
  distinct = (tt, tt);
  methods = λ k e all. (e, tt);
  fresh = a.fresh ∙ ap (λ o. not (is_some o)) (lookup-fresh_root r.path);
  looked = λ m q. ground (arith, a.looked q, lookup-fresh_root q);
}

this_tree-Grows :
    (t : RouterTrees) (ts : List RouterTrees) (r : Route) (x : Added)
    → (method_index t.mtd == method_index r.mtd) ≡ true
    → AreRoots ts
    → AreDistinct (t ∷ ts)
    → Adds t.root r.path r.ctrl x
    → Grows (t ∷ ts) r (elim x [
      | Added.added ok root ↦ built ok (record t { root = root } ∷ ts)
      | Added.broken ↦ Built.broken
    ])
unfolding look
this_tree-Grows t ts r x e h d a = record {
  ok = a.ok;
  after = record t { root = a.after } ∷ ts;
  result = rw a.result;
  roots = (a.root, h);
  distinct = d;
  methods = λ k f all. all;
  fresh = rw e a.fresh;
  looked = λ m q. ground (arith, a.looked q);
}

later_tree-Grows :
    (t : RouterTrees) (ts : List RouterTrees) (r : Route) (b : Built)
    → (method_index t.mtd == method_index r.mtd) ≡ false
    → IsRoot t.root
    → AreDistinct (t ∷ ts)
    → Grows ts r b
    → Grows
        (t ∷ ts)
        r
        (elim b [ Built.built ok ts' ↦ built ok (t ∷ ts') | Built.broken ↦ Built.broken ])
unfolding look
later_tree-Grows t ts r b e h d g = record {
  ok = g.ok;
  after = t ∷ g.after;
  result = rw g.result;
  roots = (h, g.roots);
  distinct = (g.methods (method_index t.mtd) (ground arith) d.0, g.distinct);
  methods = λ k f all. (all.0, g.methods k f all.1);
  fresh = rw e g.fresh;
  looked = λ m q. ground (arith, g.looked m q);
}

pub insert_route-Grows :
    (pcre : Pcre) (ts : List RouterTrees) (r : Route)
    → AreRoots ts
    → AreDistinct ts
    → IsStatic pcre r.path
    → Grows ts r (insert_route pcre ts r)
unfolding insert_route
insert_route-Grows pcre [] r h d v =
    new_tree-Grows r _ (add_route-Adds pcre r.ctrl fresh_root r.path ((refl, refl, tt), inl refl) v)
insert_route-Grows pcre (t ∷ ts) r h d v =
    elim (Bool-cases (method_index t.mtd == method_index r.mtd)) [
      | inl e ↦
          rw (insert_route, e)
            (this_tree-Grows t ts r _ e h.1 d (add_route-Adds pcre r.ctrl t.root r.path h.0 v))
      | inr e ↦
          rw (insert_route, e)
            (later_tree-Grows t ts r _ e h.0 d (insert_route-Grows pcre ts r h.1 d.1 v))
    ]
