-- ===== src/Router/Patterns/Serving.antt =====
-- What `Router::buildTree` of lib/src/router.cc makes of routes with parameters, and what
-- `Router::forward` answers with it.
use cppmhd.Prelude.{
  ℕ, suc, ◌≡◌, ◌⊎◌, refl, inl, inr, Bool, true, false, some, List, [], ◌∷◌, ◌++◌, Str, ◌==◌,
  Bool-cases, All, subst, sym, ==_iff, map,
}
use cppmhd.Core.{HttpMethod, method_index}
use cppmhd.Utils.Regex.{Pcre}
use cppmhd.Router.Node.{Node, height}
use cppmhd.Router.Forward.{Params, RouterTrees, reply, forward}
use cppmhd.Router.Builder.{
  Route, Router, Built, insert_route, sort, build_all, BuildResult, build_loop, build_tree,
}
use cppmhd.Router.Insert.{find_wildcard}
use cppmhd.Router.Table.Roots.{fresh_root}
use cppmhd.Router.Table.Trees.{build_all-same, All-sort}
use cppmhd.Router.Params.Trails.{Trail}
use cppmhd.Router.Params.Parsing.{IsRoute}
use cppmhd.Router.Patterns.Tokens.{Token, Instance, Covers, Covers-Instance}
use cppmhd.Router.Patterns.Goals.{Goal, IsGood}
use cppmhd.Router.Patterns.Queues.{Allows}
use cppmhd.Router.Patterns.Walking.{Found}
use cppmhd.Router.Patterns.Forwarding.{forward_loop-Found}
use cppmhd.Router.Patterns.Inserting.Rooting.{IsGrown}
use cppmhd.Router.Patterns.Routes.{tokens_of, tokens_of-IsPattern, Covers-Allows}
use cppmhd.Router.Patterns.Building.{Goals, AreGrown, BuiltGrown, insert_route-BuiltGrown}

abbrev ResultGrown : Goals → BuildResult → Type 0
ResultGrown gs (BuildResult.done r) = AreGrown gs r.trees
ResultGrown gs BuildResult.broken = Unit

-- A route, and how its path is read.
pub record Entry : Type 0 where
  pub route : Route
  pub trail : Trail

abbrev pub IsEntry : Pcre → Str → Entry → Type 0
IsEntry pcre prefix e = IsRoute pcre (prefix ++ e.route.path) e.trail

abbrev pub Any : (Entry → Type 0) → List Entry → Type 0
Any P [] = ⊥
Any P (e ∷ es) = P e ⊎ Any P es

Any-map : (P Q : Entry → Type 0) (es : List Entry) → ((e : Entry) → P e → Q e) → Any P es → Any Q es
Any-map P Q [] k h = h
Any-map P Q (e ∷ es) k (inl h) = inl (k e h)
Any-map P Q (e ∷ es) k (inr h) = inr (Any-map P Q es k h)

-- A route with the method and the controller whose path covers the pattern.
abbrev places : List Entry → Goals
places es m q c =
    Any (λ e. (method_index e.route.mtd ≡ m) × (e.route.ctrl ≡ c) × Covers (tokens_of e.trail) q) es

abbrev Allowed : Goals → Entry → Type 0
Allowed gs e = Allows e.route.ctrl (gs (method_index e.route.mtd)) (tokens_of e.trail)

module _ (pcre : Pcre) (prefix : Str) where
  allowed :
      (gs : Goals) (es : List Entry)
      → All (IsEntry pcre prefix) es
      → ((m : ℕ) (q : List Token) (c : ℕ) → places es m q c → gs m q c)
      → All (Allowed gs) es
  allowed gs [] v k = tt
  allowed gs (e ∷ es) v k = (
    Covers-Allows (tokens_of e.trail) e.route.ctrl (gs (method_index e.route.mtd))
        (tokens_of-IsPattern e.trail v.0.trail)
        (λ q h. k (method_index e.route.mtd) q e.route.ctrl (inl (refl, refl, h))),
    allowed gs es v.1 (λ m q c h. k m q c (inr h)),
  )

  build_loop-ResultGrown :
      (gs : Goals) (es : List Entry) (r : Router)
      → All (IsEntry pcre prefix) es
      → All (Allowed gs) es
      → AreGrown gs r.trees
      → ResultGrown gs (build_loop pcre prefix (map Entry.route es) r)
  unfolding build_loop
  build_loop-ResultGrown gs [] r v a h = h
  build_loop-ResultGrown gs (e ∷ es) r v a h =
      let placed : Route = record e.route { path = prefix ++ e.route.path } in
      go (insert_route pcre r.trees placed)
        (insert_route-BuiltGrown pcre gs r.trees placed e.trail h v.0 a.0)
        (λ r' g. build_loop-ResultGrown gs es r' v.1 a.1 g)
    where
      go :
          (b : Built)
          → BuiltGrown gs b
          → ((r' : Router)
              → AreGrown gs r'.trees
              → ResultGrown gs (build_loop pcre prefix (map Entry.route es) r'))
          → ResultGrown gs (elim b [
            | Built.broken ↦ BuildResult.broken
            | Built.built true trees ↦
                build_loop pcre prefix
                  (map Entry.route es)
                  (record r { trees = trees; controllers = r.controllers ++ e.route.ctrl ∷ [] })
            | Built.built false trees ↦
                build_loop pcre prefix
                  (map Entry.route es)
                  (record r { trees = trees; valid = false })
          ])
      go Built.broken g k = tt
      go (Built.built true trees) g k =
          k (record r { trees = trees; controllers = r.controllers ++ e.route.ctrl ∷ [] }) g
      go (Built.built false trees) g k = k (record r { trees = trees; valid = false }) g

  build_tree-ResultGrown :
      (es : List Entry)
      → All (IsEntry pcre prefix) es
      → ResultGrown (places es) (build_tree pcre prefix (map Entry.route es))
  unfolding build_tree
  build_tree-ResultGrown es v =
      let start : Router = record { controllers = []; trees = []; valid = true } in
      go (build_loop pcre prefix (map Entry.route es) start)
        (build_loop-ResultGrown (places es) es start v (allowed (places es) es v (λ m q c h. h)) tt)
    where
      go :
          (b : BuildResult)
          → ResultGrown (places es) b
          → ResultGrown (places es) (elim b [
            | BuildResult.broken ↦ BuildResult.broken
            | BuildResult.done r ↦ BuildResult.done (record r { trees = build_all (sort r.trees) })
          ])
      go BuildResult.broken g = tt
      go (BuildResult.done r) g =
          subst (AreGrown (places es)) (sym (build_all-same (sort r.trees)))
            (All-sort (λ t. IsGrown (places es (method_index t.mtd)) t.root) r.trees g)

fresh_root-IsGood : (g : Goal) → IsGood g fresh_root
unfolding find_wildcard
fresh_root-IsGood g = (refl, tt, tt)

IsGrown-IsGood : (g : Goal) (n : Node) → IsGrown g n → IsGood g n
IsGrown-IsGood g n (inl e) = subst (IsGood g) (sym e) (fresh_root-IsGood g)
IsGrown-IsGood g n (inr h) = h.0

forward-Found :
    (gs : Goals) (pcre : Pcre) (ts : List RouterTrees) (mtd : HttpMethod) (path : Str) (ps : Params)
    → AreGrown gs ts
    → Found (gs (method_index mtd)) path (forward pcre ts mtd path ps)
unfolding forward
forward-Found gs pcre [] mtd path ps h = tt
forward-Found gs pcre (t ∷ ts) mtd path ps h =
    elim (Bool-cases (method_index t.mtd == method_index mtd)) [
      | inl e ↦
          let same = (==_iff (method_index t.mtd) (method_index mtd)).0 e in
          let g = gs (method_index mtd) in
          rw (forward, e)
            (forward_loop-Found g pcre (suc (height t.root)) t.root path ps
              (IsGrown-IsGood g t.root (subst (λ m. IsGrown (gs m) t.root) same h.0)))
      | inr e ↦ rw (forward, e) (forward-Found gs pcre ts mtd path ps h.1)
    ]

-- Take routes whose parts, with the prefix, are static, or parameters and catch-alls with a name and a
-- pattern of their own or without, as `IsRoute` says: before each wildcard there is some text, which
-- begins with a slash, and a catch-all is the end. Whatever the order of the routes and the conflicts
-- between them: a controller that the router built of them finds for a request is that of a route
-- which has the request's method and whose path the request's path fits. There the route's texts stand
-- as they are, each parameter stands for a text without a slash, and a catch-all for any text; a
-- parameter at the end of the route may also be empty and followed by a slash and anything.
pub build_tree-Instance :
    (pcre : Pcre) (prefix : Str) (es : List Entry) (r : Router) (mtd : HttpMethod) (path : Str)
    (ps found : Params) (c : ℕ) (tsr : Bool)
    → All (IsEntry pcre prefix) es
    → build_tree pcre prefix (map Entry.route es) ≡ BuildResult.done r
    → forward pcre r.trees mtd path ps ≡ reply (some c) found tsr
    → Any
        (λ e.
          (method_index e.route.mtd ≡ method_index mtd)
          × (e.route.ctrl ≡ c)
          × Instance (tokens_of e.trail) path)
        es
build_tree-Instance pcre prefix es r mtd path ps found c tsr v built answer =
    let grown : AreGrown (places es) r.trees =
      subst (ResultGrown (places es)) built (build_tree-ResultGrown pcre prefix es v) in
    let (q, stands, fits) =
      subst (Found (places es (method_index mtd)) path) answer
        (forward-Found (places es) pcre r.trees mtd path ps grown) in
    Any-map _ _ es (λ e h. (h.0, h.1, Covers-Instance (tokens_of e.trail) q path h.2 fits)) stands
