-- ===== src/Router/Tests.antt =====
-- Routes and requests that run through the router, with a small stand-in for PCRE2.
use cppmhd.Prelude.{
  ℕ, Bool, true, false, Option, none, some, List, [], ◌∷◌, ◌++◌, Str, codes, inl, str_eq,
  if◌then◌else◌, ◌≡◌, ◌≢◌, ◌<◌, suc, ◌==◌, ◌&&◌, not, is_some, refl, length, All, arith,
}
use cppmhd.Core.{HttpMethod}
use cppmhd.Utils.Split.{split, find_first_of}
use cppmhd.Utils.Regex.{Pcre, Group, compile_regex, match, match_group, group_value}
use cppmhd.Router.Node.{height, indice, index_of, child_at}
use cppmhd.Router.Forward.{Outcome, answered, fault, exhausted, forward}
use cppmhd.Router.Parse.{
  url_static_part_pattern, url_matchall_pattern, url_regex_pattern, url_route_pattern,
  parse_path_segment, normal_static,
}
use cppmhd.Router.Builder.{Route, Router, BuildResult, Added, add_route, build_tree}
use cppmhd.Router.Insert.{Param, Insertion, returned, find_wildcard, insert_loop, static_end}
use cppmhd.Router.Node.{Node, node, nil, cons, raw_node}
use cppmhd.Router.Forward.{forward_loop, reply}
use cppmhd.Router.Parse.{route_regex, parsed}
use cppmhd.Router.Radix.Lookup.{IsRadix, lookup}
use cppmhd.Router.Radix.Forwarding.{forward_loop-lookup}
use cppmhd.Router.Radix.Insertion.{insert_loop-lookup}
use cppmhd.Router.Table.Paths.{IsStatic, parse_path_segment-static}
use cppmhd.Router.Table.Roots.{Adds, fresh_root, add_route-Adds}
use cppmhd.Router.Table.Building.{Serves, prefixed, build_tree-Serves}

-- The text before a byte, and after it.
abbrev until : ℕ → Str → Str
until c [] = []
until c (x ∷ s) = if x == c then [] else x ∷ until c s

abbrev after : ℕ → Str → Str
after c [] = []
after c (x ∷ s) = if x == c then s else after c s

abbrev pub group_of : Str → Group
group_of s =
    (codes "prefix", until b'{' s)
    ∷ (codes "name", until b'}' (after b':' s))
    ∷ (codes "pattern", until b'}' (until b':' (after b'{' s)))
    ∷ []

abbrev has_brace : Str → Bool
has_brace [] = false
has_brace (x ∷ s) = if x == b'{' then true else has_brace s

-- Patterns of routes are read; any other matches what is equal to it, and the default all.
abbrev toy_exec : Str → Str → Option Group
toy_exec p s =
    if str_eq p url_route_pattern
    then some []
    else if str_eq p url_static_part_pattern
    then (if has_brace s then none else some [])
    else if str_eq p url_matchall_pattern
    then (if str_eq (until b'*' (after b'*' (after b'{' s))) (codes "")
        then none
        else some (group_of s))
    else if str_eq p url_regex_pattern
    then some (group_of s)
    else if str_eq p (codes "[\\w\\.\\-_]*")
    then some []
    else if str_eq p s
    then some []
    else none

abbrev pub toy : Pcre
toy = record { asserts = true; compiles = λ p. true; exec = toy_exec }

abbrev pub route : Str → ℕ → Route
route p c = record { mtd = HttpMethod.get; path = p; ctrl = c }

abbrev ask : List Route → Str → Outcome
ask routes path = elim (build_tree toy [] routes) [
  | BuildResult.done r ↦ forward toy r.trees HttpMethod.get path []
  | BuildResult.broken ↦ fault
]

abbrev table : List Route
table =
    route (codes "/foo/bar") 1
    ∷ route (codes "/foo") 2
    ∷ route (codes "/fob") 3
    ∷ route (codes "/") 4
    ∷ route (codes "/x/{:id}") 5
    ∷ route (codes "/y/{q:id}/z/{q}") 6
    ∷ []

-- A static route, and a route with a parameter; a slash too many, where no route is without it; and
-- an empty segment for a parameter at the end, where the rest of the path is not looked at.
asked :
    (ask table (codes "/fob") ≡ answered (record { handle = some 3; params = []; tsr = false }))
    × (ask table (codes "/x/abc")
        ≡ answered
            (record { handle = some 5; params = (codes "id", codes "abc") ∷ []; tsr = false }))
    × (ask table (codes "/y/q/z/")
        ≡ answered (record { handle = none; params = (codes "id", codes "q") ∷ []; tsr = true }))
    × (ask table (codes "/x//a/b")
        ≡ answered (record { handle = some 5; params = (codes "id", []) ∷ []; tsr = false }))
unfolding cppmhd.Router.Builder.build_tree cppmhd.Router.Builder.add_route
    cppmhd.Router.Builder.build_all cppmhd.Router.Builder.build_child
    cppmhd.Router.Builder.build_loop cppmhd.Router.Builder.dispatch_method
    cppmhd.Router.Builder.insert_route cppmhd.Router.Builder.place cppmhd.Router.Builder.sort
    cppmhd.Router.Forward.forward cppmhd.Router.Forward.after_param cppmhd.Router.Forward.at_end
    cppmhd.Router.Forward.at_param cppmhd.Router.Forward.at_slash cppmhd.Router.Forward.at_wild
    cppmhd.Router.Forward.emplace cppmhd.Router.Forward.empty_wild
    cppmhd.Router.Forward.find_until_slash cppmhd.Router.Forward.forward_loop
    cppmhd.Router.Forward.inside cppmhd.Router.Forward.is_prefix cppmhd.Router.Forward.round
    cppmhd.Router.Forward.string_n_cmp cppmhd.Router.Forward.take_param
    cppmhd.Router.Forward.tsr_after_param cppmhd.Router.Forward.tsr_at_end
    cppmhd.Router.Forward.tsr_of_wild cppmhd.Router.Insert.append_child cppmhd.Router.Insert.choose
    cppmhd.Router.Insert.find_longest_common_prefix cppmhd.Router.Insert.fits_wild
    cppmhd.Router.Insert.insert cppmhd.Router.Insert.insert_child cppmhd.Router.Insert.insert_loop
    cppmhd.Router.Insert.insert_new cppmhd.Router.Insert.set_handle cppmhd.Router.Insert.split_node
    cppmhd.Router.Insert.find_wildcard cppmhd.Router.Node.height cppmhd.Router.Node.children_count
    cppmhd.Router.Node.child_at cppmhd.Router.Node.index_of cppmhd.Router.Node.indice
    cppmhd.Router.Node.push_child cppmhd.Router.Node.set_child cppmhd.Router.Parse.add_catch_all
    cppmhd.Router.Parse.add_param cppmhd.Router.Parse.add_regex_param
    cppmhd.Router.Parse.compile_param cppmhd.Prelude.decimal cppmhd.Router.Parse.default_pattern
    cppmhd.Router.Parse.finish_parse cppmhd.Router.Parse.format_param
    cppmhd.Router.Parse.number_param cppmhd.Router.Parse.parse_part cppmhd.Router.Parse.parse_parts
    cppmhd.Router.Parse.parse_path_segment cppmhd.Router.Parse.ends_with_slash
    cppmhd.Router.Parse.catch_all_regex cppmhd.Router.Parse.param_regex
    cppmhd.Router.Parse.normal_static cppmhd.Router.Parse.route_regex cppmhd.Utils.Split.split
    cppmhd.Utils.Split.find_first_of cppmhd.Utils.Split.mem_char cppmhd.Utils.Split.split_loop
    cppmhd.Utils.Split.split_round cppmhd.Utils.Split.substr cppmhd.Utils.Regex.match
    cppmhd.Utils.Regex.match_group cppmhd.Utils.Regex.compile_regex cppmhd.Utils.Regex.group_value
    cppmhd.Prelude.mem_equal str_eq
asked = (refl, refl, refl, refl)

abbrev one_route : List Route
one_route = route (codes "/foo") 1 ∷ []

pub foo-IsStatic : IsStatic toy (codes "/v/foo")
unfolding match route_regex normal_static str_eq
foo-IsStatic = record {
  segments = codes "v" ∷ codes "foo" ∷ [];
  trailing = false;
  rendered = refl;
  begins = refl;
  routed = refl;
  words = (((refl, refl), tt), (((refl, refl), ((refl, refl), ((refl, refl), tt))), tt));
  static = (refl, (refl, tt));
}

abbrev leaf : Str → ℕ → Node
leaf path ctrl = node (static_end path (some ctrl) raw_node) nil

-- The tree of "/foo" and "/fob".
abbrev small : Node
small =
    node (record raw_node { path = codes "/fo"; indices = codes "ob" })
      (cons (leaf (codes "o") 1) (cons (leaf (codes "b") 2) nil))

small-IsRadix : IsRadix small
unfolding index_of
small-IsRadix = (refl, refl, (refl, refl, (refl, refl, tt), (refl, refl, (refl, refl, tt), tt)))

build_tree-Serves_example :
    Serves toy (prefixed (codes "/v") one_route) (build_tree toy (codes "/v") one_route)
build_tree-Serves_example = build_tree-Serves toy (codes "/v") one_route (foo-IsStatic, tt)

insert_loop-lookup_example :
    (ok : Bool) × (after : Node) × (insert_loop 3 small (codes "/bar") (some 7) []
      ≡ returned ok after [])
    × IsRadix after
    × (ok ≡ not (is_some (lookup small (codes "/bar"))))
    × ((q : Str)
        → lookup after q ≡ (if ok && str_eq (codes "/bar") q then some 7 else lookup small q))
unfolding height find_wildcard
insert_loop-lookup_example =
    insert_loop-lookup 7 [] 3 small (codes "/bar") small-IsRadix refl (omega arith)

forward_loop-lookup_example :
    (tsr : Bool) × (forward_loop toy 3 small (codes "/fob") []
      ≡ reply (lookup small (codes "/fob")) [] tsr)
unfolding height
forward_loop-lookup_example =
    forward_loop-lookup toy 3 small (codes "/fob") [] small-IsRadix (omega arith)

add_route-Adds_example :
    Adds fresh_root (codes "/v/foo") 1 (add_route toy fresh_root (codes "/v/foo") 1)
add_route-Adds_example =
    add_route-Adds toy 1 fresh_root (codes "/v/foo") ((refl, refl, tt), inl refl) foo-IsStatic

parse_path_segment-static_example :
    (full : Str) × (parse_path_segment toy (codes "/v/foo") ≡ parsed (codes "/v/foo") full [])
parse_path_segment-static_example = parse_path_segment-static toy (codes "/v/foo") foo-IsStatic
