-- ===== src/Router/Handlers/Building.antt =====
-- The controllers that a router finds: `RouterBuilder`, `Router::buildTree` and `Router::forward` of
-- lib/src/router.cc.
use cppmhd.Prelude.{
  ℕ, suc, ◌≡◌, refl, inl, inr, Bool, true, false, ◌&&◌, ◌||◌, some, List, [], ◌∷◌, ◌++◌, Str, ◌==◌,
  arith, Bool-cases, All, subst, ==_iff, ==_self,
}
use cppmhd.Core.{HttpMethod, method_index}
use cppmhd.Utils.Regex.{Pcre}
use cppmhd.Router.Node.{Node, Nodes, node, nil, cons, height}
use cppmhd.Router.Forward.{RouterTrees, Params, reply, forward}
use cppmhd.Router.Builder.{
  Route, Router, Built, insert_route, place, sort, build_child, build_children, build_all,
  BuildResult, build_loop, build_tree,
}
use cppmhd.Router.Handlers.Adding.{Test, trees_own, built_owned, insert_route-owned}
use cppmhd.Router.Handlers.Owning.{owns, owns_nodes}
use cppmhd.Router.Handlers.Forwarding.{outcome_owned, forward_loop-owned}

place-owned :
    (p : Test) (t : RouterTrees) (ts : List RouterTrees)
    → owns (p (method_index t.mtd)) t.root ≡ true
    → trees_own p ts ≡ true
    → trees_own p (place t ts) ≡ true
unfolding trees_own place
place-owned p t [] h g = ground (arith, h)
place-owned p t (u ∷ us) h g = ground (arith, h, g, place-owned p t us h)

sort-owned :
    (p : Test) (ts : List RouterTrees) → trees_own p ts ≡ true → trees_own p (sort ts) ≡ true
unfolding trees_own sort
sort-owned p [] h = refl
sort-owned p (t ∷ ts) h =
    place-owned p t (sort ts) (ground (arith, h)) (sort-owned p ts (ground (arith, h)))

mutual
  unfolding owns build_child

  build_child-owned : (p : ℕ → Bool) (n : Node) → owns p n ≡ true → owns p (build_child n) ≡ true
  build_child-owned p (node i ns) h = ground (arith, h, build_children-owned p ns)

  build_children-owned :
      (p : ℕ → Bool) (ns : Nodes) → owns_nodes p ns ≡ true → owns_nodes p (build_children ns) ≡ true
  build_children-owned p nil h = refl
  build_children-owned p (cons n ns) h =
      ground (arith, h, build_child-owned p n, build_children-owned p ns)

build_all-owned :
    (p : Test) (ts : List RouterTrees) → trees_own p ts ≡ true → trees_own p (build_all ts) ≡ true
unfolding trees_own build_all
build_all-owned p [] h = refl
build_all-owned p (t ∷ ts) h =
    ground (arith, h, build_child-owned (p (method_index t.mtd)) t.root, build_all-owned p ts)

abbrev result_owned : Test → BuildResult → Bool
result_owned p (BuildResult.done r) = trees_own p r.trees
result_owned p BuildResult.broken = true

build_loop-owned :
    (pcre : Pcre) (p : Test) (prefix : Str) (items : List Route) (r : Router)
    → All (λ i. p (method_index i.mtd) i.ctrl ≡ true) items
    → trees_own p r.trees ≡ true
    → result_owned p (build_loop pcre prefix items r) ≡ true
unfolding build_loop
build_loop-owned pcre p prefix [] r v h = h
build_loop-owned pcre p prefix (item ∷ items) r (w, v) h =
    let placed : Route = record item { path = prefix ++ item.path } in
    go (insert_route pcre r.trees placed) (insert_route-owned pcre p r.trees placed h w)
      (λ r' g. build_loop-owned pcre p prefix items r' v g)
  where
    go :
        (b : Built)
        → built_owned p b ≡ true
        → ((r' : Router)
            → trees_own p r'.trees ≡ true
            → result_owned p (build_loop pcre prefix items r') ≡ true)
        → result_owned p (elim b [
          | Built.broken ↦ BuildResult.broken
          | Built.built true trees ↦
              build_loop pcre prefix items
                (record r { trees = trees; controllers = r.controllers ++ item.ctrl ∷ [] })
          | Built.built false trees ↦
              build_loop pcre prefix items (record r { trees = trees; valid = false })
        ])
          ≡ true
    go Built.broken g k = refl
    go (Built.built true trees) g k =
        k (record r { trees = trees; controllers = r.controllers ++ item.ctrl ∷ [] }) g
    go (Built.built false trees) g k = k (record r { trees = trees; valid = false }) g

build_tree-owned :
    (pcre : Pcre) (p : Test) (prefix : Str) (routes : List Route)
    → All (λ i. p (method_index i.mtd) i.ctrl ≡ true) routes
    → result_owned p (build_tree pcre prefix routes) ≡ true
unfolding build_tree trees_own
build_tree-owned pcre p prefix routes v =
    let start : Router = record { controllers = []; trees = []; valid = true } in
    go (build_loop pcre prefix routes start) (build_loop-owned pcre p prefix routes start v refl)
  where
    go :
        (b : BuildResult)
        → result_owned p b ≡ true
        → result_owned p (elim b [
          | BuildResult.broken ↦ BuildResult.broken
          | BuildResult.done r ↦ BuildResult.done (record r { trees = build_all (sort r.trees) })
        ])
          ≡ true
    go BuildResult.broken g = refl
    go (BuildResult.done r) g = build_all-owned p (sort r.trees) (sort-owned p r.trees g)

forward-owned :
    (pcre : Pcre) (p : Test) (ts : List RouterTrees) (mtd : HttpMethod) (path : Str) (ps : Params)
    → trees_own p ts ≡ true
    → outcome_owned (p (method_index mtd)) (forward pcre ts mtd path ps) ≡ true
unfolding forward trees_own
forward-owned pcre p [] mtd path ps h = refl
forward-owned pcre p (t ∷ ts) mtd path ps h =
    elim (Bool-cases (method_index t.mtd == method_index mtd)) [
      | inl e ↦
          let same = (==_iff (method_index t.mtd) (method_index mtd)).0 e in
          let own : owns (p (method_index mtd)) t.root ≡ true =
            subst (λ m. owns (p m) t.root ≡ true) same (ground (arith, h)) in
          rw (forward, e)
            (forward_loop-owned (p (method_index mtd)) pcre (suc (height t.root)) t.root path ps
              own)
      | inr e ↦ rw (forward, e) (forward-owned pcre p ts mtd path ps (ground (arith, h)))
    ]

-- A route has that method and that controller.
abbrev pub has_route : List Route → ℕ → ℕ → Bool
has_route [] m c = false
has_route (r ∷ rs) m c = (method_index r.mtd == m && r.ctrl == c) || has_route rs m c

has_route-each :
    (p : Test) (rs : List Route)
    → ((m c : ℕ) → has_route rs m c ≡ true → p m c ≡ true)
    → All (λ r. p (method_index r.mtd) r.ctrl ≡ true) rs
has_route-each p [] k = tt
has_route-each p (r ∷ rs) k = (
  k (method_index r.mtd) r.ctrl (ground (arith, ==_self (method_index r.mtd), ==_self r.ctrl)),
  has_route-each p rs (λ m c h. k m c (ground (arith, h))),
)

-- Whatever the routes are, with parameters and with conflicts, a controller that the router built of
-- them finds for a request is the controller of a route with the request's method.
pub build_tree-forward :
    (pcre : Pcre) (prefix : Str) (routes : List Route) (r : Router) (mtd : HttpMethod) (path : Str)
    (ps found : Params) (c : ℕ) (tsr : Bool)
    → build_tree pcre prefix routes ≡ BuildResult.done r
    → forward pcre r.trees mtd path ps ≡ reply (some c) found tsr
    → has_route routes (method_index mtd) c ≡ true
build_tree-forward pcre prefix routes r mtd path ps found c tsr e f =
    let p = has_route routes in
    let built = build_tree-owned pcre p prefix routes (has_route-each p routes (λ m c h. h)) in
    let own : trees_own p r.trees ≡ true = subst (λ b. result_owned p b ≡ true) e built in
    subst (λ o. outcome_owned (p (method_index mtd)) o ≡ true) f
      (forward-owned pcre p r.trees mtd path ps own)
