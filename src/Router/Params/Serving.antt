-- ===== src/Router/Params/Serving.antt =====
-- `Router::buildTree` and `Router::forward` of lib/src/router.cc on one route with parameters.
use cppmhd.Prelude.{
  ℕ, suc, ◌≡◌, refl, ap, subst, true, false, some, List, [], ◌∷◌, ◌++◌, Str, str_eq, ==_self,
  length, arith,
}
use mathlib.Core.List.{append-nil}
use cppmhd.Core.{HttpMethod, method_index}
use cppmhd.Utils.Regex.{Pcre}
use cppmhd.Router.Node.{raw_node, height}
use cppmhd.Router.Forward.{Params, RouterTrees, reply, forward}
use cppmhd.Router.Insert.{returned, insert, insert_child}
use cppmhd.Router.Builder.{
  Added, built, Route, Router, BuildResult, add_route, insert_route, sort, build_loop, build_tree,
}
use cppmhd.Router.Table.Trees.{build_all-same}
use cppmhd.Router.Table.Roots.{fresh_root}
use cppmhd.Router.Params.Trails.{
  Trail, pattern_of, queue, chain, IsTrail, fill, named, pairs, first_value, Fits,
}
use cppmhd.Router.Params.Naming.{first_value-named}
use cppmhd.Router.Params.Inserting.{insert_child-chain}
use cppmhd.Router.Params.Forwarding.{forward_loop-chain}
use cppmhd.Router.Params.Parsing.{IsRoute, parse_path_segment-read}

insert-chain :
    (c : ℕ) (t : Trail)
    → IsTrail t
    → insert fresh_root (pattern_of t) (some c) (queue t) ≡ returned true (chain c raw_node t) []
unfolding insert str_eq
insert-chain c t h =
    let e = insert_child-chain c (suc (length (pattern_of t))) raw_node t [] (omega arith) h in
    rw (
      subst
        (λ ps.
          insert_child (suc (length (pattern_of t))) fresh_root (pattern_of t) (some c) ps
          ≡ returned true (chain c raw_node t) [])
        (append-nil (queue t)) e)

add_route-chain :
    (pcre : Pcre) (path : Str) (c : ℕ) (t : Trail)
    → IsRoute pcre path t
    → add_route pcre fresh_root path c ≡ Added.added true (chain c raw_node t)
unfolding add_route
add_route-chain pcre path c t v =
    let (full, e) = parse_path_segment-read pcre path t v in
    rw (add_route, e, insert-chain c t v.trail)

-- The loop of `buildTree` with one route.
build_loop-chain :
    (pcre : Pcre) (prefix path : Str) (m : HttpMethod) (c : ℕ) (t : Trail)
    → IsRoute pcre (prefix ++ path) t
    → build_loop pcre prefix
        (record { mtd = m; path = path; ctrl = c } ∷ [])
        (record { controllers = []; trees = []; valid = true })
      ≡ BuildResult.done (record {
        controllers = c ∷ [];
        trees = record { mtd = m; root = chain c raw_node t } ∷ [];
        valid = true;
      })
unfolding build_loop
build_loop-chain pcre prefix path m c t v =
    let r : Route = record { mtd = m; path = prefix ++ path; ctrl = c } in
    let one : insert_route pcre [] r
        ≡ built true (record { mtd = m; root = chain c raw_node t } ∷ []) =
      unfold insert_route in (rw (insert_route, add_route-chain pcre (prefix ++ path) c t v)) in
    rw (build_loop, one)

forward-chain :
    (pcre : Pcre) (m : HttpMethod) (c : ℕ) (t : Trail) (vs : List Str) (ps : Params)
    → IsTrail t
    → Fits pcre t vs
    → forward pcre (record { mtd = m; root = chain c raw_node t } ∷ []) m (fill t vs) ps
      ≡ reply (some c) (named t vs ps) false
unfolding forward
forward-chain pcre m c t vs ps h f = rw (==_self (method_index m)) (
    forward_loop-chain pcre (suc (height (chain c raw_node t))) c raw_node t vs ps (omega arith) h f
      refl)

-- The router of one route, and the parameters that the nodes leave.
pub build_tree-named :
    (pcre : Pcre) (prefix path : Str) (m : HttpMethod) (c : ℕ) (t : Trail) (vs : List Str)
    (ps : Params)
    → IsRoute pcre (prefix ++ path) t
    → Fits pcre t vs
    → (r : Router) × (build_tree pcre prefix (record { mtd = m; path = path; ctrl = c } ∷ [])
        ≡ BuildResult.done r)
      × (r.valid ≡ true)
      × (forward pcre r.trees m (fill t vs) ps ≡ reply (some c) (named t vs ps) false)
unfolding build_tree sort
build_tree-named pcre prefix path m c t vs ps v f =
    let trees : List RouterTrees = record { mtd = m; root = chain c raw_node t } ∷ [] in
    (
      record { controllers = c ∷ []; trees = trees; valid = true },
      rw (build_tree, build_loop-chain pcre prefix path m c t v)
          (ap (λ us. BuildResult.done (record { controllers = c ∷ []; trees = us; valid = true }))
            (build_all-same (sort trees))),
      refl,
      forward-chain pcre m c t vs ps v.trail f,
    )

-- A router of one route can be built, and is valid. The route's parts are static, or parameters and
-- catch-alls, with a name and a pattern of their own or without, as `IsRoute` says; before each
-- wildcard there is some text, which begins with a slash, and a catch-all is the end. A request whose
-- path is the route's, with a segment that is not empty and that its pattern matches for each
-- parameter, and any text for a catch-all, is forwarded to the route's controller. What it finds by a
-- name is then the value of the first parameter with that name, after those it had before.
pub build_tree-fill :
    (pcre : Pcre) (prefix path : Str) (m : HttpMethod) (c : ℕ) (t : Trail) (vs : List Str)
    (ps : Params)
    → IsRoute pcre (prefix ++ path) t
    → Fits pcre t vs
    → (r : Router) × (found : Params) × (build_tree pcre prefix
          (record { mtd = m; path = path; ctrl = c } ∷ [])
        ≡ BuildResult.done r)
      × (r.valid ≡ true)
      × (forward pcre r.trees m (fill t vs) ps ≡ reply (some c) found false)
      × ((x : Str) → first_value found x ≡ first_value (ps ++ pairs t vs) x)
build_tree-fill pcre prefix path m c t vs ps v f =
    let (r, done, valid, answer) = build_tree-named pcre prefix path m c t vs ps v f in
    (r, named t vs ps, done, valid, answer, λ x. first_value-named t vs ps x)
