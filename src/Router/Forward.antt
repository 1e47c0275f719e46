-- ===== src/Router/Forward.antt =====
-- `Router::forward` of lib/src/router.cc: the way of a request down the tree of its method.
use cppmhd.Prelude.{
  ℕ, zero, suc, ◌+◌, Bool, true, false, not, ◌&&◌, ◌||◌, Option, none, some, List, [], ◌∷◌, Str,
  str_eq, c_str, mem_equal, ◌==◌, ltb, if◌then◌else◌, is_some, length, take, drop,
}
use cppmhd.Core.{HttpMethod, method_index}
use cppmhd.Utils.Regex.{Pcre, match}
use cppmhd.Router.Node.{
  Info, Node, info, children, Handler, RouterNodeType, is_param, is_catch_all, is_root, child_at,
  indice, height,
}

-- The first `pos` bytes of two C strings agree.
unfoldable pub string_n_cmp : Str → Str → ℕ → Bool
string_n_cmp first second pos = mem_equal (c_str first) (c_str second) pos

unfoldable pub is_prefix : Str → Str → Bool
unfolding string_n_cmp
is_prefix whole prefix = string_n_cmp whole prefix (length prefix)

unfoldable pub find_until_slash : Str → ℕ
find_until_slash [] = 0
find_until_slash (c ∷ s) = if c == b'/' then 0 else suc (find_until_slash s)

abbrev pub Params : Type 0
Params = List (Str × Str)

-- `params.emplace(key, value)`: a key that is there keeps its value.
unfoldable pub emplace : Str → Str → Params → Params
emplace key value [] = (key, value) ∷ []
emplace key value ((k, v) ∷ ps) =
    if str_eq k key then (k, v) ∷ ps else (k, v) ∷ emplace key value ps

abbrev pub slash : Str
slash = b'/' ∷ []

-- The returned controller, the map of parameters and the `tsr` flag.
pub record Answer : Type 0 where
  pub handle : Handler
  pub params : Params
  pub tsr : Bool

-- `fault` is a null pointer that is read, `exhausted` that the fuel ran out.
pub data Outcome : Type 0 where
  answered : Answer → Outcome
  fault : Outcome
  exhausted : Outcome

abbrev pub reply : Handler → Params → Bool → Outcome
reply h ps tsr = answered (record { handle = h; params = ps; tsr = tsr })

-- What one round of the loop ends with: a return, or the next node and the rest of the path.
pub data Round : Type 0 where
  return : Outcome → Round
  descend : Node → Str → Params → Round

abbrev pub is_node : (Node → Bool) → Option Node → Bool
is_node test none = false
is_node test (some n) = test n

-- `path[0]`, which is the terminator of an empty string.
abbrev pub front : Str → ℕ
front [] = 0
front (c ∷ s) = c

pub record RouterTrees : Type 0 where
  pub mtd : HttpMethod
  pub root : Node

-- The last assignment of `tsr`, where the node's path is no proper part of the request's.
unfoldable pub tsr_at_end : Node → Str → Bool
tsr_at_end n path =
    str_eq path slash
    || (length (info n).path == length path + 1
        && str_eq (take 1 (drop (length path) (info n).path)) slash
        && is_some (info n).handle)
    || is_node (λ c. is_catch_all (info c).type) (child_at 0 (children n))

-- A segment that ends the path, at a PARAM node with no handler.
unfoldable pub tsr_after_param : Node → Bool
tsr_after_param n =
    is_node
      (λ c.
        (str_eq (info c).path slash && is_some (info c).handle) || str_eq (info c).indices slash)
      (child_at 0 (children n))

-- Past the regex: `size` is the length of the segment.
unfoldable pub after_param : Node → Str → ℕ → Params → Round
after_param n path size ps =
    if size == 0 && is_some (info n).handle
    then return (reply (info n).handle ps false)
    else if ltb size (length path)
    then elim (child_at 0 (children n)) [
      | some c ↦ descend c (drop size path) ps
      | none ↦ return (reply none ps (length path == size + 1))
    ]
    else if is_some (info n).handle
    then return (reply (info n).handle ps false)
    else return (reply none ps (tsr_after_param n))

-- At a CATCH_ALL node, which is asserted to have a handler.
abbrev pub at_catch_all : Bool → Handler → Params → Round
at_catch_all asserts none ps = if asserts then return fault else return (reply none ps false)
at_catch_all asserts (some c) ps = return (reply (some c) ps false)

module _ (pcre : Pcre) where
  -- `params` after the segment up to the slash was tried; `none` is the `return nullptr`.
  unfoldable pub take_param : Info → Str → Params → Option Params
  take_param i [] ps = some (if match pcre i.re [] then emplace i.name [] ps else ps)
  take_param i (c ∷ s) ps =
      if match pcre i.re (c ∷ s) then some (emplace i.name (c ∷ s) ps) else none

  unfoldable pub at_param : Node → Str → Params → Round
  unfolding after_param take_param
  at_param n path ps =
      let size = find_until_slash path in
      elim (take_param (info n) (take size path) ps) [
        | none ↦ return (reply none ps false)
        | some ps' ↦ after_param n path size ps'
      ]

  -- The wildcard child `n`, with the rest of the path behind its parent.
  unfoldable pub at_wild : Node → Str → Params → Round
  unfolding at_param
  at_wild n path ps = elim (info n).type [
    | RouterNodeType.param ↦ at_param n path ps
    | RouterNodeType.catch_all ↦
        at_catch_all pcre.asserts (info n).handle (emplace (info n).name path ps)
    | _ ↦ descend n path ps
  ]

  -- The path goes on behind the node's own, and `path` is the rest.
  unfoldable pub inside : Node → Str → Params → Round
  unfolding at_wild
  inside n path ps =
      if (info n).wildchild
      then elim (child_at 0 (children n)) [
        | none ↦ return (reply none ps false)
        | some c ↦ at_wild c path ps
      ]
      else elim (indice n (front path)) [
        | some c ↦ descend c path ps
        | none ↦ return (reply none ps (str_eq path slash && is_some (info n).handle))
      ]

  -- The wildcard child `c` takes the empty rest, or does not.
  unfoldable pub empty_wild : Node → Params → Option Answer
  empty_wild c ps =
      let taken : Answer = record {
        handle = (info c).handle;
        params = emplace (info c).name [] ps;
        tsr = false;
      } in
      if is_catch_all (info c).type || (is_param (info c).type && match pcre (info c).re [])
      then some taken
      else none

  -- `tsr` from the wildcard child of the child that is indexed by a slash.
  unfoldable pub tsr_of_wild : Node → Bool
  tsr_of_wild c =
      is_catch_all (info c).type
      || (is_param (info c).type && is_some (info c).handle && match pcre (info c).re [])

  -- Nothing is handled at the end of the path; a slash more may do.
  unfoldable pub at_slash : Node → Params → Outcome
  unfolding tsr_of_wild
  at_slash n ps =
      if str_eq (info n).path slash && (info n).wildchild && not (is_root (info n).type)
      then reply none ps true
      else elim (indice n b'/') [
        | none ↦ reply none ps false
        | some s ↦
            if length (info s).path == 1 && is_some (info s).handle
            then reply none ps true
            else if (info s).wildchild
            then elim (child_at 0 (children s)) [
              | none ↦ fault
              | some c ↦ reply none ps (tsr_of_wild c)
            ]
            else reply none ps false
      ]

  -- The node's path is all that is left of the request's.
  unfoldable pub at_end : Node → Params → Outcome
  unfolding empty_wild at_slash
  at_end n ps =
      if is_some (info n).handle
      then reply (info n).handle ps false
      else if (info n).wildchild
      then elim (child_at 0 (children n)) [
        | none ↦ fault
        | some c ↦ elim (empty_wild c ps) [ some a ↦ answered a | none ↦ at_slash n ps ]
      ]
      else at_slash n ps

  -- One round of the loop.
  unfoldable pub round : Node → Str → Params → Round
  round n path ps =
      let prefix = (info n).path in
      if ltb (length prefix) (length path)
      then if is_prefix path prefix
        then inside n (drop (length prefix) path) ps
        else return (reply none ps (tsr_at_end n path))
      else if str_eq prefix path
      then return (at_end n ps)
      else return (reply none ps (tsr_at_end n path))

  unfoldable pub forward_loop : ℕ → Node → Str → Params → Outcome
  forward_loop zero n path ps = exhausted
  forward_loop (suc fuel) n path ps = elim (round n path ps) [
    | return o ↦ o
    | descend n' path' ps' ↦ forward_loop fuel n' path' ps'
  ]

  -- The tree of the request's method, if there is one. Every round goes down one node, so a round
  -- for each level is enough.
  unfoldable pub forward : List RouterTrees → HttpMethod → Str → Params → Outcome
  unfolding forward_loop round inside at_end tsr_at_end is_prefix
  forward [] mtd path ps = reply none ps false
  forward (t ∷ ts) mtd path ps =
      if method_index t.mtd == method_index mtd
      then forward_loop (suc (height t.root)) t.root path ps
      else forward ts mtd path ps
