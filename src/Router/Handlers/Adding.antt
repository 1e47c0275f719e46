-- ===== src/Router/Handlers/Adding.antt =====
-- Adding a route to trees whose handlers all pass a test: `RawTree::addRoute` and the trees of
-- `RawBuilder` in lib/src/router.cc.
use cppmhd.Prelude.{
  ℕ, ◌≡◌, refl, inl, inr, Bool, true, false, ◌&&◌, some, List, [], ◌∷◌, Str, ◌==◌, arith,
  Bool-cases, subst, sym, ==_iff,
}
use cppmhd.Core.{method_index}
use cppmhd.Utils.Regex.{Pcre}
use cppmhd.Router.Node.{Node, node, nil, raw_node}
use cppmhd.Router.Forward.{RouterTrees}
use cppmhd.Router.Insert.{Insertion, returned, insert}
use cppmhd.Router.Parse.{ParseResult, parsed, refused, thrown, parse_path_segment}
use cppmhd.Router.Builder.{Route, Added, checked, add_route, Built, insert_route}
use cppmhd.Router.Handlers.Owning.{owns}
use cppmhd.Router.Handlers.Inserting.{insertion_owned, insert-owned}

-- A test of a method and a controller.
abbrev pub Test : Type 0
Test = ℕ → ℕ → Bool

unfoldable pub trees_own : Test → List RouterTrees → Bool
trees_own p [] = true
trees_own p (t ∷ ts) = owns (p (method_index t.mtd)) t.root && trees_own p ts

abbrev added_owned : (ℕ → Bool) → Added → Bool
added_owned p (Added.added ok root) = owns p root
added_owned p Added.broken = true

abbrev pub built_owned : Test → Built → Bool
built_owned p (Built.built ok ts) = trees_own p ts
built_owned p Built.broken = true

module _ (pcre : Pcre) where
  add_route-owned :
      (p : ℕ → Bool) (root : Node) (path : Str) (ctrl : ℕ)
      → owns p root ≡ true
      → p ctrl ≡ true
      → added_owned p (add_route pcre root path ctrl) ≡ true
  unfolding add_route
  add_route-owned p root path ctrl h own = go (parse_path_segment pcre path)
    where
      put :
          (r : Insertion)
          → insertion_owned p r ≡ true
          → added_owned p (elim r [
            | returned ok root' left ↦ checked pcre.asserts ok root' left
            | _ ↦ Added.broken
          ])
            ≡ true
      put (returned ok root' []) g = g
      put (returned ok root' (_ ∷ left)) g = ground (arith, g)
      put Insertion.fault g = refl
      put Insertion.exhausted g = refl

      go :
          (r : ParseResult)
          → added_owned p (elim r [
            | refused ↦ Added.added false root
            | thrown ↦ Added.broken
            | parsed calced full params ↦ elim (insert root calced (some ctrl) params) [
              | returned ok root' left ↦ checked pcre.asserts ok root' left
              | _ ↦ Added.broken
            ]
          ])
            ≡ true
      go refused = h
      go thrown = refl
      go (parsed calced full params) =
          put (insert root calced (some ctrl) params)
            (insert-owned p (some ctrl) own root calced params h)

  pub insert_route-owned :
      (p : Test) (ts : List RouterTrees) (r : Route)
      → trees_own p ts ≡ true
      → p (method_index r.mtd) r.ctrl ≡ true
      → built_owned p (insert_route pcre ts r) ≡ true
  unfolding insert_route trees_own owns
  insert_route-owned p [] r h own =
      ground
        (arith, add_route-owned (p (method_index r.mtd)) (node raw_node nil) r.path r.ctrl refl own)
  insert_route-owned p (t ∷ ts) r h own =
      elim (Bool-cases (method_index t.mtd == method_index r.mtd)) [
        | inl e ↦
            let same = (==_iff (method_index t.mtd) (method_index r.mtd)).0 e in
            let own' : p (method_index t.mtd) r.ctrl ≡ true =
              subst (λ m. p m r.ctrl ≡ true) (sym same) own in
            let here =
              add_route-owned (p (method_index t.mtd)) t.root r.path r.ctrl (ground (arith, h))
                own' in
            ground (arith, e, h, here)
        | inr e ↦ ground (arith, e, h, insert_route-owned p ts r (ground (arith, h)) own)
      ]
