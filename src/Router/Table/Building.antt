-- ===== src/Router/Table/Building.antt =====
-- `Router::buildTree` and `Router::forward` on static routes: the table of the routes.
use cppmhd.Prelude.{
  ◌≡◌, refl, Bool, true, false, not, ◌&&◌, none, some, List, [], ◌∷◌, ◌++◌, Str, str_eq, str_eq_iff,
  ◌==◌, if◌then◌else◌, is_some, arith, ap, sym, ◌∙◌, subst, All,
}
use mathlib.Core.List.{append-nil, append_assoc}
use cppmhd.Core.{HttpMethod, method_index}
use cppmhd.Utils.Regex.{Pcre}
use cppmhd.Router.Node.{Handler}
use cppmhd.Router.Forward.{Params, RouterTrees, reply, forward}
use cppmhd.Router.Builder.{
  Route, Built, built, insert_route, sort, build_all, Router, BuildResult, build_loop, build_tree,
}
use cppmhd.Router.Table.Paths.{IsStatic}
use cppmhd.Router.Table.Growing.{Grows, insert_route-Grows}
use cppmhd.Router.Table.Trees.{
  look, AreRoots, AreDistinct, look-sort, sort-AreRoots, build_all-same, forward-look,
}

-- Does the route answer this method and path?
abbrev pub answers : Route → HttpMethod → Str → Bool
answers r m path = method_index r.mtd == method_index m && str_eq r.path path

-- The abstract router: the first route that answers.
unfoldable pub find_route : List Route → HttpMethod → Str → Handler
find_route [] m path = none
find_route (r ∷ rs) m path = if answers r m path then some r.ctrl else find_route rs m path

abbrev pub with_prefix : Str → Route → Route
with_prefix prefix r = record r { path = prefix ++ r.path }

abbrev pub prefixed : Str → List Route → List Route
prefixed prefix [] = []
prefixed prefix (r ∷ rs) = with_prefix prefix r ∷ prefixed prefix rs

-- No route answers what an earlier one does.
unfoldable pub all_new : List Route → List Route → Bool
all_new seen [] = true
all_new seen (r ∷ rs) = not (is_some (find_route seen r.mtd r.path)) && all_new (seen ++ r ∷ []) rs

find_route-snoc :
    (seen : List Route) (r : Route) (m : HttpMethod) (path : Str)
    → find_route (seen ++ r ∷ []) m path ≡ elim (find_route seen m path) [
      | some c ↦ some c
      | none ↦ if answers r m path then some r.ctrl else none
    ]
unfolding find_route
find_route-snoc [] r m path = refl
find_route-snoc (s ∷ seen) r m path = ground (arith, find_route-snoc seen r m path)

find_route-same :
    (seen : List Route) (r : Route) (m : HttpMethod) (path : Str)
    → answers r m path ≡ true
    → find_route seen m path ≡ find_route seen r.mtd r.path
unfolding find_route
find_route-same [] r m path e = refl
find_route-same (s ∷ seen) r m path e =
    ground (arith, find_route-same seen r m path e, str_eq_iff r.path path)

-- The trees hold the routes seen so far.
record Holds (seen : List Route) (ts : List RouterTrees) : Type 0 where
  roots : AreRoots ts
  distinct : AreDistinct ts
  same : (m : HttpMethod) (path : Str) → look ts m path ≡ find_route seen m path

grown-Holds :
    (seen : List Route) (ts : List RouterTrees) (r : Route) (b : Built)
    → Holds seen ts
    → (g : Grows ts r b) → Holds (seen ++ r ∷ []) g.after
grown-Holds seen ts r b h g = record {
  roots = g.roots;
  distinct = g.distinct;
  same = λ m path. ground (
    arith,
    g.looked m path,
    g.fresh,
    h.same m path,
    h.same r.mtd r.path,
    find_route-snoc seen r m path,
    find_route-same seen r m path,
  );
}

-- The end of the loop: it holds all routes, and the flag is right.
record Loops (seen routes : List Route) (before : Router) (b : BuildResult) : Type 0 where
  after : Router
  result : b ≡ BuildResult.done after
  holds : Holds (seen ++ routes) after.trees
  valid : after.valid ≡ (before.valid && all_new seen routes)

Loops-cons :
    (seen routes : List Route) (s : Route) (before next : Router) (b : BuildResult)
    → next.valid ≡ (before.valid && not (is_some (find_route seen s.mtd s.path)))
    → Loops (seen ++ s ∷ []) routes next b
    → Loops seen (s ∷ routes) before b
unfolding all_new
Loops-cons seen routes s before next b e l = record {
  after = l.after;
  result = l.result;
  holds = subst (λ rs. Holds rs l.after.trees) (append_assoc seen (s ∷ []) routes) l.holds;
  valid = ground (arith, l.valid);
}

module _ (pcre : Pcre) (prefix : Str) where
  build_round :
      (s : Route) (routes : List Route) (r : Router) (ok : Bool) (ts : List RouterTrees)
      → insert_route pcre r.trees (with_prefix prefix s) ≡ built ok ts
      → (next : Router) × (next.trees ≡ ts)
        × (next.valid ≡ (r.valid && ok))
        × (build_loop pcre prefix (s ∷ routes) r ≡ build_loop pcre prefix routes next)
  unfolding build_loop
  build_round s routes r true ts e = (
    record r { trees = ts; controllers = r.controllers ++ s.ctrl ∷ [] },
    refl,
    ground arith,
    rw (build_loop, e),
  )
  build_round s routes r false ts e =
      (record r { trees = ts; valid = false }, refl, ground arith, rw (build_loop, e))

  build_loop-Loops :
      (seen routes : List Route) (r : Router)
      → Holds seen r.trees
      → All (λ s. IsStatic pcre (prefix ++ s.path)) routes
      → Loops seen (prefixed prefix routes) r (build_loop pcre prefix routes r)
  unfolding build_loop
  build_loop-Loops seen [] r h v = record {
    after = r;
    result = refl;
    holds = subst (λ rs. Holds rs r.trees) (sym (append-nil seen)) h;
    valid = unfold all_new in (ground arith);
  }
  build_loop-Loops seen (s ∷ routes) r h v =
      let item : Route = with_prefix prefix s in
      let g = insert_route-Grows pcre r.trees item h.roots h.distinct v.0 in
      let (next, trees, valid, step) = build_round s routes r g.ok g.after g.result in
      let held =
        subst (Holds (seen ++ item ∷ [])) (sym trees) (grown-Holds seen r.trees item _ h g) in
      Loops-cons seen (prefixed prefix routes) item r next _
        (valid
          ∙ ap (λ b. r.valid && b)
              (g.fresh ∙ ap (λ o. not (is_some o)) (h.same item.mtd item.path)))
        (subst (Loops (seen ++ item ∷ []) (prefixed prefix routes) next) (sym step)
          (build_loop-Loops (seen ++ item ∷ []) routes next held v.1))

-- What a built router answers, by the routes that it was built from.
pub record Serves (pcre : Pcre) (routes : List Route) (b : BuildResult) : Type 0 where
  pub router : Router
  pub result : b ≡ BuildResult.done router
  pub valid : router.valid ≡ all_new [] routes
  pub forwards :
      (m : HttpMethod) (path : Str) (ps : Params)
      → (tsr : Bool) × (forward pcre router.trees m path ps
          ≡ reply (find_route routes m path) ps tsr)

-- Building a router of static routes ends without undefined behaviour. It is valid exactly if no
-- two routes have the same method and path, and whether or not it is, a request is forwarded to
-- the controller of the first route with its method and path, and to none if there is none, with
-- the parameters left alone.
pub build_tree-Serves :
    (pcre : Pcre) (prefix : Str) (routes : List Route)
    → All (λ s. IsStatic pcre (prefix ++ s.path)) routes
    → Serves pcre (prefixed prefix routes) (build_tree pcre prefix routes)
unfolding build_tree
build_tree-Serves pcre prefix routes v =
    let l =
      build_loop-Loops pcre prefix [] routes (record { controllers = []; trees = []; valid = true })
        start v in
    let ts = l.after.trees in
    let same = build_all-same (sort ts) in
    record {
      router = record l.after { trees = build_all (sort ts) };
      result = rw (build_tree, l.result);
      valid = l.valid;
      forwards = λ m path ps.
          subst
            (λ us.
              (tsr : Bool) × (forward pcre us m path ps
                ≡ reply (find_route (prefixed prefix routes) m path) ps tsr))
            (sym same)
            (let (tsr, e) =
                forward-look pcre (sort ts) m path ps (sort-AreRoots ts l.holds.roots) in
              (
                tsr,
                e
                    ∙ ap (λ h. reply h ps tsr)
                        (look-sort ts m path l.holds.distinct ∙ l.holds.same m path),
              ));
    }
  where
    start : Holds [] []
    start = record { roots = tt; distinct = tt; same = λ m path. unfold look find_route in refl }
