-- ===== src/Router/Patterns/Tests.antt =====
-- A parameter beside a text, and the routes that a request can reach.
use cppmhd.Prelude.{ℕ, ◌≡◌, refl, Bool, true, some, List, [], ◌∷◌, Str, str_eq, codes, arith, map}
use cppmhd.Core.{HttpMethod, method_index}
use cppmhd.Utils.Regex.{match, match_group, group_value}
use cppmhd.Router.Forward.{Params, reply, forward}
use cppmhd.Router.Insert.{find_wildcard}
use cppmhd.Router.Parse.{normal_static, route_regex}
use cppmhd.Router.Builder.{Router, Route, BuildResult, build_tree}
use cppmhd.Router.Tests.{toy, group_of}
use cppmhd.Router.Params.Trails.{end}
use cppmhd.Router.Params.Parsing.{word, IsRoute}
use cppmhd.Router.Params.Tests.{source, trail, path-IsRoute}
use cppmhd.Router.Patterns.Tokens.{Instance}
use cppmhd.Router.Patterns.Routes.{tokens_of}
use cppmhd.Router.Patterns.Serving.{Entry, Any, build_tree-Instance}

static_path-IsRoute : IsRoute toy (codes "/w/z") (end (codes "/w/z"))
unfolding match normal_static route_regex str_eq find_wildcard
static_path-IsRoute = record {
  segments = word (codes "w") ∷ (word (codes "z") ∷ []);
  trailing = Bool.false;
  rendered = refl;
  routed = refl;
  whole = ((refl, tt), ((refl, tt), tt));
  read = (refl, (refl, tt));
  pattern = refl;
  queued = refl;
  trail = (refl, omega arith);
}

abbrev entries : List Entry
entries =
    record {
      route = record { mtd = HttpMethod.get; path = codes "/y/{q:id}/z"; ctrl = 5 };
      trail = trail;
    }
    ∷ record {
      route = record { mtd = HttpMethod.get; path = codes "/w/z"; ctrl = 7 };
      trail = end (codes "/w/z");
    }
    ∷ []

abbrev router_of : BuildResult → Router
router_of (BuildResult.done r) = r
router_of BuildResult.broken = record { controllers = []; trees = []; valid = true }

abbrev router : Router
router = router_of (build_tree toy [] (map Entry.route entries))

abbrev found : Params
found = (group_value (group_of source) (codes "name"), codes "q") ∷ []

served :
    (build_tree toy [] (map Entry.route entries) ≡ BuildResult.done router)
    × (forward toy router.trees HttpMethod.get (codes "/y/q/z") []
        ≡ reply (some 5) found Bool.false)
unfolding build_tree cppmhd.Router.Builder.add_route cppmhd.Router.Builder.build_all
    cppmhd.Router.Builder.build_child cppmhd.Router.Builder.build_loop
    cppmhd.Router.Builder.dispatch_method cppmhd.Router.Builder.insert_route
    cppmhd.Router.Builder.place cppmhd.Router.Builder.sort forward cppmhd.Router.Forward.after_param
    cppmhd.Router.Forward.at_end cppmhd.Router.Forward.at_param cppmhd.Router.Forward.at_slash
    cppmhd.Router.Forward.at_wild cppmhd.Router.Forward.emplace cppmhd.Router.Forward.empty_wild
    cppmhd.Router.Forward.find_until_slash cppmhd.Router.Forward.forward_loop
    cppmhd.Router.Forward.inside cppmhd.Router.Forward.is_prefix cppmhd.Router.Forward.round
    cppmhd.Router.Forward.string_n_cmp cppmhd.Router.Forward.take_param
    cppmhd.Router.Forward.tsr_after_param cppmhd.Router.Forward.tsr_at_end
    cppmhd.Router.Forward.tsr_of_wild cppmhd.Router.Insert.append_child cppmhd.Router.Insert.choose
    cppmhd.Router.Insert.find_longest_common_prefix cppmhd.Router.Insert.fits_wild
    cppmhd.Router.Insert.insert cppmhd.Router.Insert.insert_child cppmhd.Router.Insert.insert_loop
    cppmhd.Router.Insert.insert_new cppmhd.Router.Insert.set_handle cppmhd.Router.Insert.split_node
    find_wildcard cppmhd.Router.Node.height cppmhd.Router.Node.children_count
    cppmhd.Router.Node.child_at cppmhd.Router.Node.index_of cppmhd.Router.Node.indice
    cppmhd.Router.Node.push_child cppmhd.Router.Node.set_child cppmhd.Router.Parse.add_catch_all
    cppmhd.Router.Parse.add_param cppmhd.Router.Parse.add_regex_param
    cppmhd.Router.Parse.compile_param cppmhd.Prelude.decimal cppmhd.Router.Parse.default_pattern
    cppmhd.Router.Parse.finish_parse cppmhd.Router.Parse.format_param
    cppmhd.Router.Parse.number_param cppmhd.Router.Parse.parse_part cppmhd.Router.Parse.parse_parts
    cppmhd.Router.Parse.parse_path_segment cppmhd.Router.Parse.ends_with_slash
    cppmhd.Router.Parse.catch_all_regex cppmhd.Router.Parse.param_regex normal_static route_regex
    cppmhd.Utils.Split.split cppmhd.Utils.Split.find_first_of cppmhd.Utils.Split.mem_char
    cppmhd.Utils.Split.split_loop cppmhd.Utils.Split.split_round cppmhd.Utils.Split.substr match
    match_group cppmhd.Utils.Regex.compile_regex group_value cppmhd.Prelude.mem_equal str_eq
served = (refl, refl)

build_tree-Instance_example :
    Any
      (λ e.
        (method_index e.route.mtd ≡ method_index HttpMethod.get)
        × (e.route.ctrl ≡ 5)
        × Instance (tokens_of e.trail) (codes "/y/q/z"))
      entries
build_tree-Instance_example =
    build_tree-Instance toy [] entries router HttpMethod.get (codes "/y/q/z") [] found 5 Bool.false
      (path-IsRoute, (static_path-IsRoute, tt)) served.0 served.1
