-- ===== src/Http/Requests/Tests.antt =====
-- Two requests at one time.
use cppmhd.Prelude.{ℕ, ◌≡◌, ◌≢◌, sym, subst, refl, Option, none, some}
use cppmhd.Core.{get}
use cppmhd.Entity.{initial, initial_complete}
use cppmhd.Http.Connection.{ConnectionObject, connection_cb}
use cppmhd.Http.Connection.Rounds.{Life}
use cppmhd.Http.Tests.{demo, keeps, seen, quiet, posted, got}
use cppmhd.Http.Tests as Http
use cppmhd.Http.Method.{parse_http_method}
use cppmhd.Http.Requests.{Slot, Pool, empty_pool, kept, message_cb, connection_finish_cb}
use cppmhd.Http.Requests as Requests
use cppmhd.Http.Requests.Owning.{Reached, at_first, called}
use cppmhd.Http.Requests.Serving.{message_cb-Reached, Reached-owner}

abbrev one : Pool
one = kept 7 40 (quiet Http.opened) empty_pool

abbrev other : ConnectionObject
other = seen get initial_complete none

abbrev two : Pool
two = kept 8 41 (quiet other) one

two-Reached : Reached demo two
unfolding message_cb connection_cb parse_http_method cppmhd.Prelude.strn_equal
    cppmhd.Http.Server.check_request cppmhd.Prelude.str_eq cppmhd.Router.Forward.forward
    cppmhd.Entity.new_request
two-Reached =
    called 8 41 (got 0) one two (called 7 40 (posted 0) empty_pool one at_first refl refl) refl refl

not_initial : (co : ConnectionObject) → two.objects 40 ≡ some co → co.request.state ≢ initial
not_initial co e f =
    let same : Http.opened ≡ co = cc in
    let g : Http.opened.request.state ≡ initial =
      subst (λ (co : ConnectionObject). co.request.state ≡ initial) (sym same) f in
    cc

message_cb-Reached_example :
    ((co : ConnectionObject) × (two.objects 40 ≡ some co) × Life demo co)
    × ((to : Pool) × (message_cb demo 7 50 (posted 4) two ≡ some to)
        × ((b : ℕ) → b ≢ 40 → to.objects b ≡ two.objects b))
    × ((to : Pool) × (connection_finish_cb 7 two ≡ some to)
        × (to.objects 40 ≡ none)
        × ((b : ℕ) → b ≢ 40 → to.objects b ≡ two.objects b))
message_cb-Reached_example =
    message_cb-Reached demo keeps two 7 40 50 (posted 4) two-Reached refl
      (λ co e on f. not_initial co e f)

Reached-owner_example :
    (r : ℕ) × (two.slots r ≡ Requests.opened (some 41))
    × ((s : ℕ) → two.slots s ≡ Requests.opened (some 41) → s ≡ r)
Reached-owner_example = Reached-owner demo keeps two 41 other two-Reached refl
