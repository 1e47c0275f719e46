-- ===== src/Router/Patterns/Building.antt =====
-- `RawTree::addRoute` and `RawBuilder` of lib/src/router.cc, on routes with parameters.
use cppmhd.Prelude.{
  ◌&&◌, ℕ, refl, inl, inr, some, List, [], ◌∷◌, Str, ◌==◌, Bool-cases, All, subst, sym, ==_iff,
}
use cppmhd.Core.{method_index}
use cppmhd.Utils.Regex.{Pcre}
use cppmhd.Router.Node.{Node, node, raw_node, nil}
use cppmhd.Router.Forward.{RouterTrees}
use cppmhd.Router.Insert.{Insertion, returned, fault, exhausted, insert}
use cppmhd.Router.Builder.{Route, Added, checked, add_route, Built, insert_route}
use cppmhd.Router.Radix.Lookup.{Starts}
use cppmhd.Router.Table.Roots.{fresh_root}
use cppmhd.Router.Params.Trails.{Trail, queue, pattern_of}
use cppmhd.Router.Params.Parsing.{IsRoute, parse_path_segment-read}
use cppmhd.Router.Patterns.Goals.{Goal}
use cppmhd.Router.Patterns.Queues.{Allows}
use cppmhd.Router.Patterns.Inserting.Wildcards.{Gives}
use cppmhd.Router.Patterns.Inserting.Rooting.{IsGrown, insert-IsGrown}
use cppmhd.Router.Patterns.Routes.{
  tokens_of, written-tokens_of, tokens_of-IsPattern, tokens_of-Ready, pattern_of-Starts,
}

-- A goal for each method.
abbrev pub Goals : Type 1
Goals = ℕ → Goal

abbrev pub AreGrown : Goals → List RouterTrees → Type 0
AreGrown gs ts = All (λ t. IsGrown (gs (method_index t.mtd)) t.root) ts

abbrev AddedGrown : Goal → Added → Type 0
AddedGrown g (Added.added ok root) = IsGrown g root
AddedGrown g Added.broken = Unit

abbrev pub BuiltGrown : Goals → Built → Type 0
BuiltGrown gs (Built.built ok ts) = AreGrown gs ts
BuiltGrown gs Built.broken = Unit

module _ (pcre : Pcre) where
  add_route-AddedGrown :
      (g : Goal) (root : Node) (path : Str) (c : ℕ) (t : Trail)
      → IsGrown g root
      → IsRoute pcre path t
      → Allows c g (tokens_of t)
      → AddedGrown g (add_route pcre root path c)
  unfolding add_route
  add_route-AddedGrown g root path c t h v a =
      let (full, e) = parse_path_segment-read pcre path t v in
      let same = written-tokens_of t in
      let starts = subst (Starts b'/') (sym same) (pattern_of-Starts t v) in
      rw (add_route, e)
        (put (insert root (pattern_of t) (some c) (queue t)) (
          subst (λ u. Gives (IsGrown g) (insert root u (some c) (queue t))) same
            (insert-IsGrown c g (tokens_of t) (queue t) starts (tokens_of-IsPattern t v.trail)
              (tokens_of-Ready t v.trail) a root h)))
    where
      put :
          (r : Insertion)
          → Gives (IsGrown g) r
          → AddedGrown g (elim r [
            | returned ok root' left ↦ checked pcre.asserts ok root' left
            | _ ↦ Added.broken
          ])
      put (returned ok root' []) k = k
      put (returned ok root' (_ ∷ left)) k = elim (Bool-cases (pcre.asserts && ok)) [
        | inl e ↦ rw (AddedGrown, e) tt
        | inr e ↦ rw (AddedGrown, e) k
      ]
      put fault k = tt
      put exhausted k = tt

  pub insert_route-BuiltGrown :
      (gs : Goals) (ts : List RouterTrees) (r : Route) (t : Trail)
      → AreGrown gs ts
      → IsRoute pcre r.path t
      → Allows r.ctrl (gs (method_index r.mtd)) (tokens_of t)
      → BuiltGrown gs (insert_route pcre ts r)
  unfolding insert_route
  insert_route-BuiltGrown gs [] r t h v a =
      made (add_route pcre (node raw_node nil) r.path r.ctrl)
        (add_route-AddedGrown (gs (method_index r.mtd)) fresh_root r.path r.ctrl t (inl refl) v a)
    where
      made :
          (o : Added)
          → AddedGrown (gs (method_index r.mtd)) o
          → BuiltGrown gs (elim o [
            | Added.added ok root ↦ Built.built ok (record { mtd = r.mtd; root = root } ∷ [])
            | Added.broken ↦ Built.broken
          ])
      made (Added.added ok root) k = (k, tt)
      made Added.broken k = tt
  insert_route-BuiltGrown gs (u ∷ us) r t (first, others) v a =
      elim (Bool-cases (method_index u.mtd == method_index r.mtd)) [
        | inl e ↦
            let same = (==_iff (method_index u.mtd) (method_index r.mtd)).0 e in
            let allows = subst (λ m. Allows r.ctrl (gs m) (tokens_of t)) (sym same) a in
            rw (insert_route, BuiltGrown, e)
              (here (add_route pcre u.root r.path r.ctrl) (
                add_route-AddedGrown (gs (method_index u.mtd)) u.root r.path r.ctrl t first v
                  allows))
        | inr e ↦
            rw (insert_route, BuiltGrown, e)
              (there (insert_route pcre us r) (insert_route-BuiltGrown gs us r t others v a))
      ]
    where
      here :
          (o : Added)
          → AddedGrown (gs (method_index u.mtd)) o
          → BuiltGrown gs (elim o [
            | Added.added ok root ↦ Built.built ok (record u { root = root } ∷ us)
            | Added.broken ↦ Built.broken
          ])
      here (Added.added ok root) k = (k, others)
      here Added.broken k = tt

      there :
          (b : Built)
          → BuiltGrown gs b
          → BuiltGrown gs (elim b [
            | Built.built ok ts' ↦ Built.built ok (u ∷ ts')
            | Built.broken ↦ Built.broken
          ])
      there (Built.built ok ts) k = (first, k)
      there Built.broken k = tt
