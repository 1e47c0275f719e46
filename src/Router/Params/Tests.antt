-- ===== src/Router/Params/Tests.antt =====
-- A route with a parameter, and a request that goes through it.
use cppmhd.Prelude.{◌≡◌, refl, Bool, true, some, [], ◌∷◌, Str, str_eq, codes, arith}
use cppmhd.Core.{HttpMethod}
use cppmhd.Utils.Regex.{match, match_group, group_value}
use cppmhd.Router.Forward.{Params, reply, forward}
use cppmhd.Router.Insert.{Param, find_wildcard}
use cppmhd.Router.Parse.{
  normal_static, catch_all_regex, param_regex, route_regex, parse_path_segment, parsed,
}
use cppmhd.Router.Builder.{Router, BuildResult, build_tree}
use cppmhd.Router.Tests.{toy, group_of}
use cppmhd.Router.Params.Trails.{Trail, end, more, pairs, first_value}
use cppmhd.Router.Params.Parsing.{
  word, wild, read_param, as_param, IsRoute, parse_path_segment-read,
}
use cppmhd.Router.Params.Serving.{build_tree-fill}

abbrev pub source : Str
source = codes "{q:id}"

abbrev id_param : Param
id_param = read_param 1 (group_of source)

abbrev pub trail : Trail
trail = more (codes "/y/") id_param (end (codes "/z"))

pub path-IsRoute : IsRoute toy (codes "/y/{q:id}/z") trail
unfolding cppmhd.Prelude.decimal match match_group group_value normal_static catch_all_regex
    param_regex route_regex str_eq find_wildcard
path-IsRoute = record {
  segments = word (codes "y") ∷ (wild source id_param ∷ (word (codes "z") ∷ []));
  trailing = Bool.false;
  rendered = refl;
  routed = refl;
  whole = ((refl, tt), ((refl, (refl, (refl, (refl, (refl, (refl, tt)))))), ((refl, tt), tt)));
  read = (refl, (1, as_param 1 [] (group_of source) refl refl refl refl, (refl, tt)));
  pattern = refl;
  queued = refl;
  trail = ((refl, omega arith), refl, refl, (refl, omega arith));
}

build_tree-fill_example :
    (r : Router) × (found : Params) × (build_tree toy []
        (record { mtd = HttpMethod.get; path = codes "/y/{q:id}/z"; ctrl = 5 } ∷ [])
      ≡ BuildResult.done r)
    × (r.valid ≡ true)
    × (forward toy r.trees HttpMethod.get (codes "/y/q/z") [] ≡ reply (some 5) found Bool.false)
    × ((x : Str) → first_value found x ≡ first_value (pairs trail (codes "q" ∷ [])) x)
unfolding match group_value str_eq cppmhd.Prelude.decimal
build_tree-fill_example =
    build_tree-fill toy [] (codes "/y/{q:id}/z") HttpMethod.get 5 trail (codes "q" ∷ []) []
      path-IsRoute (((refl, tt), omega arith, refl), tt)

-- A parameter without a name and a pattern.
abbrev bare_source : Str
bare_source = codes "{}"

abbrev bare_trail : Trail
bare_trail = more (codes "/y/") (read_param 1 (group_of bare_source)) (end (codes "/z"))

bare_path-IsRoute : IsRoute toy (codes "/y/{}/z") bare_trail
unfolding cppmhd.Prelude.decimal match match_group group_value normal_static catch_all_regex
    param_regex route_regex str_eq find_wildcard
bare_path-IsRoute = record {
  segments =
      word (codes "y")
      ∷ (wild bare_source (read_param 1 (group_of bare_source)) ∷ (word (codes "z") ∷ []));
  trailing = Bool.false;
  rendered = refl;
  routed = refl;
  whole = ((refl, tt), ((refl, (refl, tt)), ((refl, tt), tt)));
  read = (refl, (2, as_param 1 [] (group_of bare_source) refl refl refl refl, (refl, tt)));
  pattern = refl;
  queued = refl;
  trail = ((refl, omega arith), refl, refl, (refl, omega arith));
}

parse_path_segment-read_example :
    (full : Str) × (parse_path_segment toy (codes "/y/{}/z")
      ≡ parsed (codes "/y/:/z") full (read_param 1 (group_of bare_source) ∷ []))
parse_path_segment-read_example =
    parse_path_segment-read toy (codes "/y/{}/z") bare_trail bare_path-IsRoute
