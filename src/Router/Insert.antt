-- ===== src/Router/Insert.antt =====
-- `RawTree::insert` and `RawTree::insertChild` of lib/src/router.cc. The source walks down by a
-- pointer and writes through it; here each function returns the node that it has changed.
use cppmhd.Prelude.{
  ℕ, zero, suc, Bool, true, false, not, ◌&&◌, ◌||◌, Option, none, some, List, [], ◌∷◌, ◌++◌, Str,
  str_eq, ◌==◌, ltb, leb, if◌then◌else◌, is_some, length, take, drop,
}
use mathlib.Core.Option
use cppmhd.Utils.Regex.{Regex, no_regex}
use cppmhd.Router.Node.{
  Info, Node, nil, cons, node, info, children, Handler, RouterNodeType, is_param, is_catch_all,
  raw_node, child_at, children_count, index_of, push_child, set_child, height,
}
use cppmhd.Router.Forward.{is_prefix, front}

-- `struct Param`
pub record Param : Type 0 where
  pub type : RouterNodeType
  pub prefix : Str
  pub name : Str
  pub pattern : Str
  pub re : Regex

unfoldable pub find_longest_common_prefix : Str → Str → ℕ
find_longest_common_prefix [] second = 0
find_longest_common_prefix (a ∷ first) [] = 0
find_longest_common_prefix (a ∷ first) (b ∷ second) =
    if a == b then suc (find_longest_common_prefix first second) else 0

abbrev pub param_char : ℕ
param_char = b':'

-- `none` is the -1.
unfoldable pub find_wildcard : Str → Option ℕ
find_wildcard [] = none
find_wildcard (c ∷ path) = if c == param_char then some 0 else Option.map suc (find_wildcard path)

-- What a call leaves: the returned flag, the node with all below it, and the parameters that are
-- still queued. `fault` is `front()` of an empty queue, `exhausted` that the fuel ran out.
pub data Insertion : Type 0 where
  returned : Bool → Node → List Param → Insertion
  fault : Insertion
  exhausted : Insertion

-- The node, with `child` pushed to its children as the last thing done below it.
abbrev pub below : (Node → Node) → Insertion → Insertion
below rebuild (returned ok n ps) = returned ok (rebuild n) ps
below rebuild fault = fault
below rebuild exhausted = exhausted

-- `child` of a PARAM, with the fields that are set before the loop goes on.
abbrev pub param_info : Param → Info
param_info wild = record raw_node {
  type = wild.type;
  re = wild.re;
  path = param_char ∷ [];
  name = wild.name;
}

-- `nChild`, for the rest of the path behind a parameter.
abbrev pub next_info : Str → Info
next_info path = record raw_node { type = RouterNodeType.unknown; indices = take 1 path }

abbrev pub catch_all_info : Param → Handler → Info
catch_all_info wild ctrl = record raw_node { type = wild.type; handle = ctrl; name = wild.name }

-- The node at a wildcard: what stands before it becomes the path of a STATIC node.
abbrev pub before_wild : ℕ → Str → Param → Info → Info
before_wild pos path wild i =
    if ltb 0 pos
    then record i { path = take pos path; type = RouterNodeType.static_part; wildchild = true }
    else record i { type = wild.type; wildchild = true }

-- No parameter is left in the path.
abbrev pub static_end : Str → Handler → Info → Info
static_end path ctrl i = record i {
  path = path;
  handle = ctrl;
  type = RouterNodeType.static_part;
  indices = [];
}

-- `rest` is the path from the wildcard on; the new parameter's node goes on with `more`, the rest
-- of the loop, if anything follows the wildcard.
abbrev pub param_child : Param → Str → Handler → List Param → (Node → Str → Insertion) → Insertion
param_child wild rest ctrl ps more =
    if ltb 1 (length rest)
    then below (λ n. node (param_info wild) (cons n nil))
        (more (node (next_info (drop 1 rest)) nil) (drop 1 rest))
    else returned true (node (record (param_info wild) { handle = ctrl }) nil) ps

-- One wildcard after another, each from the front of the queue.
unfoldable pub insert_child : ℕ → Node → Str → Handler → List Param → Insertion
insert_child zero n path ctrl ps = exhausted
insert_child (suc fuel) (node i ns) path ctrl ps = elim (find_wildcard path) [
  | none ↦ returned true (node (static_end path ctrl i) ns) ps
  | some pos ↦ elim ps [
    | [] ↦ fault
    | wild ∷ rest ↦
        if ltb 0 (children_count ns) then returned false (node i ns) rest else elim wild.type [
          | RouterNodeType.param ↦
              below (λ n. node (before_wild pos path wild i) (cons n nil))
                (param_child wild (drop pos path) ctrl rest
                  (λ n path'. insert_child fuel n path' ctrl rest))
          | RouterNodeType.catch_all ↦
              returned true
                (node (before_wild pos path wild i)
                  (cons (node (catch_all_info wild ctrl) nil) nil))
                rest
          | _ ↦ fault
        ]
  ]
]

-- The node's path is cut at `i`: the tail becomes its only child.
unfoldable pub split_node : ℕ → Str → Node → Node
split_node i path (node f ns) =
    node
      (record f {
        indices = take 1 (drop i f.path);
        path = take i path;
        type = RouterNodeType.static_part;
        handle = none;
        re = no_regex;
        wildchild = false;
      })
      (cons (node (record f { path = drop i f.path }) ns) nil)

abbrev pub split_if : ℕ → Str → Node → Node
split_if i path n = if ltb i (length (info n).path) then split_node i path n else n

-- The handler of a node that the whole path leads to.
unfoldable pub set_handle : Handler → List Param → Node → Insertion
set_handle ctrl ps (node f ns) =
    if is_some f.handle
    then returned false (node f ns) ps
    else returned true (node (record f { handle = ctrl }) ns) ps

-- A new last child, indexed by the path's first character.
unfoldable pub append_child : Node → ℕ → Node → Node
append_child (node f ns) ch child =
    node (record f { indices = f.indices ++ ch ∷ [] }) (push_child ns child)

-- The wildcard child may take the path if it starts with the child's own and a slash comes next.
unfoldable pub fits_wild : Str → Node → Bool
fits_wild path c =
    is_prefix path (info c).path
    && not (is_catch_all (info c).type)
    && (leb (length path) (length (info c).path)
        || front (drop (length (info c).path) path) == b'/')

abbrev pub with_child : Node → ℕ → Node → Node
with_child (node f ns) k n = node f (set_child k n ns)

-- No child takes the path: it is inserted under a new one, or at the node itself.
unfoldable pub insert_new : Node → Str → Handler → List Param → Insertion
unfolding append_child insert_child
insert_new n path ctrl ps =
    if front path == param_char
    then insert_child (suc (length path)) n path ctrl ps
    else below (λ c. append_child n (front path) c)
        (insert_child (suc (length path))
          (node (record raw_node { type = RouterNodeType.static_part }) nil) path ctrl ps)

-- Which child the rest of the path goes to.
pub data Way : Type 0 where
  to_child : ℕ → Way
  conflict : Way
  new_child : Way

unfoldable pub choose : Node → Str → Way
unfolding fits_wild index_of
choose n path =
    if (info n).wildchild
    then elim (child_at 0 (children n)) [
      | none ↦ to_child 0
      | some c ↦ if fits_wild path c then to_child 0 else conflict
    ]
    else if is_param (info n).type && front path == b'/' && children_count (children n) == 1
    then to_child 0
    else elim (index_of (front path) (info n).indices) [ none ↦ new_child | some k ↦ to_child k ]

unfoldable pub insert_loop : ℕ → Node → Str → Handler → List Param → Insertion
insert_loop zero n path ctrl ps = exhausted
insert_loop (suc fuel) n path ctrl ps =
    let i = find_longest_common_prefix path (info n).path in
    let n' = split_if i path n in
    let path' = drop i path in
    let down =
      λ (k : ℕ) (c : Node). below (λ d. with_child n' k d) (insert_loop fuel c path' ctrl ps) in
    elim (ltb i (length path)) [
      | false ↦ set_handle ctrl ps n'
      | true ↦ elim (choose n' path') [
        | conflict ↦ returned false n' ps
        | new_child ↦ insert_new n' path' ctrl ps
        | to_child k ↦ elim (child_at k (children n')) [ none ↦ fault | some c ↦ down k c ]
      ]
    ]

-- `insert` on the root; an empty root takes the path as it is.
unfoldable pub insert : Node → Str → Handler → List Param → Insertion
unfolding insert_loop insert_child insert_new choose set_handle split_node
    find_longest_common_prefix
insert n path ctrl ps =
    if str_eq (info n).path [] && str_eq (info n).indices []
    then elim (insert_child (suc (length path)) n path ctrl ps) [
      | returned ok n' ps' ↦ returned true n' ps'
      | fault ↦ fault
      | exhausted ↦ exhausted
    ]
    else insert_loop (suc (height n)) n path ctrl ps
