-- ===== src/Router/Builder.antt =====
-- `RouterBuilder`, `RawTree::addRoute`, `RawBuilder` and `Router::buildTree` of lib/src/router.cc.
use cppmhd.Prelude.{
  ℕ, Bool, true, false, ◌&&◌, some, List, [], ◌∷◌, ◌++◌, Str, ◌==◌, ltb, if◌then◌else◌,
}
use cppmhd.Core.{HttpMethod, method_index}
use cppmhd.Utils.Regex.{Pcre, match}
use cppmhd.Router.Node.{Node, Nodes, nil, cons, node, raw_node}
use cppmhd.Router.Forward.{RouterTrees}
use cppmhd.Router.Insert.{Param, returned, insert}
use cppmhd.Router.Parse.{parsed, refused, thrown, parse_path_segment, sub_route_regex}

-- An element of `routes`: method, path and controller.
pub record Route : Type 0 where
  pub mtd : HttpMethod
  pub path : Str
  pub ctrl : ℕ

-- `RouterBuilder::add(method, path, controller)`
unfoldable pub add : List Route → HttpMethod → Str → ℕ → List Route
add routes mtd path ctrl = routes ++ record { mtd = mtd; path = path; ctrl = ctrl } ∷ []

-- The loop over the routes of another builder.
unfoldable pub add_all : Str → List Route → List Route → List Route
unfolding add
add_all prefix [] routes = routes
add_all prefix (sub ∷ subs) routes =
    add_all prefix subs (add routes sub.mtd (prefix ++ sub.path) sub.ctrl)

-- `RouterBuilder::add(prefix, subRoutes)`: a bad prefix adds nothing.
unfoldable pub add_routes : Pcre → Str → List Route → List Route → List Route
unfolding add_all
add_routes pcre prefix subs routes =
    if match pcre sub_route_regex prefix then add_all prefix subs routes else routes

-- The root of a method's tree after `addRoute`, with the returned flag. `broken` is undefined
-- behaviour: a read through null, an empty queue, or an uncaught exception.
pub data Added : Type 0 where
  added : Bool → Node → Added
  broken : Added

-- The assertion of `addRoute`: a route that is inserted has used up its parameters.
abbrev pub checked : Bool → Bool → Node → List Param → Added
checked asserts ok root [] = added ok root
checked asserts ok root (p ∷ left) = if asserts && ok then Added.broken else added ok root

-- `RawTree::addRoute`
unfoldable pub add_route : Pcre → Node → Str → ℕ → Added
unfolding parse_path_segment insert
add_route pcre root path ctrl = elim (parse_path_segment pcre path) [
  | refused ↦ added false root
  | thrown ↦ broken
  | parsed calced full params ↦ elim (insert root calced (some ctrl) params) [
    | returned ok root' left ↦ checked pcre.asserts ok root' left
    | _ ↦ broken
  ]
]

-- `vector<MethodTree>`, with what goes wrong.
pub data Built : Type 0 where
  built : Bool → List RouterTrees → Built
  broken : Built

-- The first tree of the method, or a new one at the end, takes the route.
unfoldable pub insert_route : Pcre → List RouterTrees → Route → Built
unfolding add_route
insert_route pcre [] r = elim (add_route pcre (node raw_node nil) r.path r.ctrl) [
  | Added.added ok root ↦ built ok (record { mtd = r.mtd; root = root } ∷ [])
  | Added.broken ↦ Built.broken
]
insert_route pcre (t ∷ ts) r = elim (method_index t.mtd == method_index r.mtd) [
  | true ↦ elim (add_route pcre t.root r.path r.ctrl) [
    | Added.added ok root ↦ built ok (record t { root = root } ∷ ts)
    | Added.broken ↦ Built.broken
  ]
  | false ↦ elim (insert_route pcre ts r) [
    | Built.built ok ts' ↦ built ok (t ∷ ts')
    | Built.broken ↦ Built.broken
  ]
]

-- The place of a method in the order of `RawBuilder::sort`.
unfoldable pub dispatch_method : HttpMethod → ℕ
dispatch_method HttpMethod.get = 0
dispatch_method HttpMethod.post = 1
dispatch_method HttpMethod.delete = 2
dispatch_method HttpMethod.put = 3
dispatch_method HttpMethod.options = 4
dispatch_method _ = 5

-- One step of an insertion sort by that order.
unfoldable pub place : RouterTrees → List RouterTrees → List RouterTrees
place t [] = t ∷ []
place t (u ∷ us) =
    if ltb (dispatch_method u.mtd) (dispatch_method t.mtd) then u ∷ place t us else t ∷ u ∷ us

-- `std::sort` by that order; the order of equal methods is left open by the library.
unfoldable pub sort : List RouterTrees → List RouterTrees
unfolding place
sort [] = []
sort (t ∷ ts) = place t (sort ts)

-- `buildChild()`: the same fields and children, in new nodes.
unfoldable mutual
  pub build_child : Node → Node
  build_child (node i ns) = node i (build_children ns)

  pub build_children : Nodes → Nodes
  build_children nil = nil
  build_children (cons n ns) = cons (build_child n) (build_children ns)

-- `buildTree` has the trees built before it sets the type of the raw root, which is not read again.
unfoldable pub build_all : List RouterTrees → List RouterTrees
unfolding build_child
build_all [] = []
build_all (t ∷ ts) = record t { root = build_child t.root } ∷ build_all ts

-- The members of `Router`; `controllers` keeps the added controllers alive.
pub record Router : Type 0 where
  pub controllers : List ℕ
  pub trees : List RouterTrees
  pub valid : Bool

pub data BuildResult : Type 0 where
  done : Router → BuildResult
  broken : BuildResult

-- The loop over the routes.
unfoldable pub build_loop : Pcre → Str → List Route → Router → BuildResult
unfolding insert_route
build_loop pcre prefix [] r = done r
build_loop pcre prefix (item ∷ items) r =
    elim (insert_route pcre r.trees (record item { path = prefix ++ item.path })) [
      | Built.broken ↦ BuildResult.broken
      | Built.built true trees ↦
          build_loop pcre prefix items
            (record r { trees = trees; controllers = r.controllers ++ item.ctrl ∷ [] })
      | Built.built false trees ↦
          build_loop pcre prefix items (record r { trees = trees; valid = false })
    ]

unfoldable pub build_tree : Pcre → Str → List Route → BuildResult
unfolding build_loop sort build_all
build_tree pcre prefix routes =
    elim (build_loop pcre prefix routes (record { controllers = []; trees = []; valid = true })) [
      | BuildResult.broken ↦ BuildResult.broken
      | BuildResult.done r ↦ done (record r { trees = build_all (sort r.trees) })
    ]
