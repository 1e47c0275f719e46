-- ===== src/App/Serving.antt =====
-- From the routes of an application to its answers: the router of lib/src/router.cc under
-- `MHDconnectionCB` of lib/src/http.cc.
use cppmhd.Prelude.{
  ℕ, ◌≡◌, ◌⊎◌, inl, inr, refl, Bool, none, some, List, [], Str, All, ap, sym, ◌∙◌, subst,
  Option-cases, Bool-cases,
}
use cppmhd.Core.{HttpMethod, router_not_found}
use cppmhd.Core.Status.{not_found}
use cppmhd.Router.Forward.{RouterTrees, reply, forward}
use cppmhd.Router.Builder.{Route, BuildResult, build_tree}
use cppmhd.Router.Table.Paths.{IsStatic}
use cppmhd.Router.Table.Building.{find_route, build_tree-Serves}
use cppmhd.Entity.{new_request}
use cppmhd.Http.Method.{parse_http_method}
use cppmhd.Http.Server.{Server, check_request, tsr_response}
use cppmhd.Http.Connection.{
  ConnectionObject, Call, answers, connected, not_found_message, settle, forwarded, first_round,
  connection_cb,
}
use cppmhd.App.Start.{prefixed-empty}

-- The connection of a new request.
abbrev pub opened : Call → HttpMethod → ConnectionObject
opened c mtd = record { request = new_request c.url mtd; response = none; ctrl = none }

abbrev trees_of : BuildResult → List RouterTrees
trees_of (BuildResult.done r) = r.trees
trees_of BuildResult.broken = []

forward-find_route :
    (http : Server) (routes : List Route) (added : List ℕ) (ok : Bool) (mtd : HttpMethod)
    (path : Str)
    → All (λ r. IsStatic http.pcre r.path) routes
    → build_tree http.pcre [] routes
      ≡ BuildResult.done (record { controllers = added; trees = http.trees; valid = ok })
    → (tsr : Bool) × (forward http.pcre http.trees mtd path []
        ≡ reply (find_route routes mtd path) [] tsr)
forward-find_route http routes added ok mtd path v e =
    let s = build_tree-Serves http.pcre [] routes v in
    let same : s.router.trees ≡ http.trees = ap trees_of (sym s.result ∙ e) in
    let (tsr, f) = s.forwards mtd path [] in
    (
      tsr,
      subst (λ ts. forward http.pcre ts mtd path [] ≡ reply (find_route routes mtd path) [] tsr)
          same (f ∙ ap (λ rs. reply (find_route rs mtd path) [] tsr) (prefixed-empty routes)),
    )

module _ (http : Server) (c : Call) (mtd : HttpMethod)
    (known : parse_http_method c.method ≡ some mtd)
    (passed : check_request http (new_request c.url mtd) c.host_field c.version ≡ none) where
  first_settled :
      (o : cppmhd.Router.Forward.Outcome)
      → forward http.pcre http.trees mtd c.url [] ≡ o
      → connection_cb http none c ≡ settle http c (opened c mtd) o
  unfolding connection_cb first_round forwarded new_request
  first_settled o f = rw (first_round, known, passed, f) refl

  -- A server whose trees are built from static routes: the first call for a request, whose method is
  -- known and that passes the check, hands it to the controller of the first route with its method
  -- and address; if there is no such route, it is answered at once, with a redirect to the address
  -- with a slash more or with the error that no route is found.
  pub connection_cb-find_route :
      (routes : List Route) (added : List ℕ) (ok : Bool)
      → All (λ r. IsStatic http.pcre r.path) routes
      → build_tree http.pcre [] routes
        ≡ BuildResult.done (record { controllers = added; trees = http.trees; valid = ok })
      → let co = opened c mtd in
        ((ctrl : ℕ) × (find_route routes mtd c.url ≡ some ctrl)
          × (connection_cb http none c ≡ connected http co ctrl c.data_size))
        ⊎ ((find_route routes mtd c.url ≡ none)
            × ((connection_cb http none c
                  ≡ answers http co (tsr_response http co.request) c.data_size)
                ⊎ (connection_cb http none c
                    ≡ answers http co
                        (http.error_handler
                          (some co.request)
                          not_found
                          router_not_found
                          (not_found_message http c))
                        c.data_size)))
  unfolding settle new_request
  connection_cb-find_route routes added ok v e =
      let (tsr, f) = forward-find_route http routes added ok mtd c.url v e in
      let start = first_settled (reply (find_route routes mtd c.url) [] tsr) f in
      elim (Option-cases (find_route routes mtd c.url)) [
        | inr (ctrl, g) ↦ inl (ctrl, g, start ∙ rw g refl)
        | inl g ↦ inr (
          g,
          elim (Bool-cases tsr) [
            | inl h ↦ inl (start ∙ rw (g, h) refl)
            | inr h ↦ inr (start ∙ rw (g, h) refl)
          ],
        )
      ]
