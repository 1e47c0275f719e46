-- ===== src/Router/Handlers/Tests.antt =====
-- The controller that a request with a parameter is forwarded to.
use cppmhd.Prelude.{◌≡◌, refl, Bool, true, some, List, [], ◌∷◌, str_eq, codes, arith}
use cppmhd.Core.{HttpMethod, method_index}
use cppmhd.Utils.Regex.{match, group_value}
use cppmhd.Router.Forward.{Params, reply, forward}
use cppmhd.Router.Builder.{Router, Route, BuildResult, build_tree}
use cppmhd.Router.Tests.{toy, group_of}
use cppmhd.Router.Params.Tests.{source, trail, path-IsRoute}
use cppmhd.Router.Params.Serving.{build_tree-named}
use cppmhd.Router.Handlers.Building.{has_route, build_tree-forward}

abbrev routes : List Route
routes = record { mtd = HttpMethod.get; path = codes "/y/{q:id}/z"; ctrl = 5 } ∷ []

abbrev found : Params
found = (group_value (group_of source) (codes "name"), codes "q") ∷ []

served :
    (r : Router) × (build_tree toy [] routes ≡ BuildResult.done r)
    × (r.valid ≡ true)
    × (forward toy r.trees HttpMethod.get (codes "/y/q/z") [] ≡ reply (some 5) found Bool.false)
unfolding match group_value str_eq cppmhd.Router.Forward.emplace
served =
    build_tree-named toy [] (codes "/y/{q:id}/z") HttpMethod.get 5 trail (codes "q" ∷ []) []
      path-IsRoute (((refl, tt), omega arith, refl), tt)

build_tree-forward_example : has_route routes (method_index HttpMethod.get) 5 ≡ true
build_tree-forward_example =
    build_tree-forward toy [] routes served.0 HttpMethod.get (codes "/y/q/z") [] found 5 Bool.false
      served.1 served.3
