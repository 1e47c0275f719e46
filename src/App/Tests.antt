-- ===== src/App/Tests.antt =====
-- An application that starts, and a barrier for two threads.
use cppmhd.Prelude.{
  ◌⊎◌, none, strn_equal, str_eq, ℕ, zero, suc, Bool, List, count, map, ◌≤◌, ◌≡◌, refl, true, false,
  some, [], ◌∷◌, codes, ◌==◌, ltb, if◌then◌else◌, arith,
}
use cppmhd.Utils.Address.Tests.{tags}
use cppmhd.Core.{HttpMethod, router_not_found, cppmhd_listen_failed}
use cppmhd.Router.Tests.{toy, route, foo-IsStatic}
use cppmhd.App.Barrier.{
  Barrier, new_barrier, enter, wake, Reached, enters, wake_all, stop_app, wait_together, wait_ends,
}
use cppmhd.App.Signals.{
  AppManager, handler_of, called_for, set_signal_handler, default_handlers, signal_handler_wrapper,
  default_handlers_lem,
}
use cppmhd.App.Daemons.{
  thread_count, running, numbers, start_mhd_daemon, start_mhd_daemon_lem, thread_count-bound,
}
use cppmhd.App.Lifetime.{
  register, erase, destroy, Managed, at_first, made, handled, destroyed, destroy-Managed,
  signal_handler_wrapper-Managed,
}
use cppmhd.Router.Builder.{build_tree}
use cppmhd.Router.Table.Building.{prefixed, find_route, Serves, build_tree-Serves}
use cppmhd.Http.Method.{parse_http_method}
use cppmhd.Http.Server.{Server, check_request, tsr_response}
use cppmhd.Http.Connection.{Call, answers, connected, not_found_message, connection_cb}
use cppmhd.Http.Tests.{demo, call}
use cppmhd.Core.Status.{not_found}
use cppmhd.App.Serving.{opened, connection_cb-find_route}
use cppmhd.App.Start.{System, App, ended, start, start_lem}
use Prim.Native.Nat.{◌*◌}

abbrev met : Barrier
met = record { number = 0; total = 2; entered = 2; blocked = 0; notified = 1; left = 1 }

met-Reached : Reached 2 met
unfolding enter cppmhd.App.Barrier.notify_all
met-Reached = enters (enter (new_barrier 2)) (enters (new_barrier 2) Reached.start)

wait_together_example : met.entered ≡ 2
wait_together_example = wait_together 2 met met-Reached (omega arith) (omega arith)

wait_ends_example : (met.blocked ≡ 0) × ((wake_all 1 met).left ≡ 2)
wait_ends_example = wait_ends 2 met met-Reached refl

-- A third thread, before the ones that wait have left, shuts the barrier again.
late : (wake (enter met)).left ≡ 1
unfolding enter wake cppmhd.App.Barrier.notify_all
late = refl

abbrev manager : AppManager
manager = record { handlers = (2, 10) ∷ []; apps = 1 ∷ 2 ∷ [] }

abbrev system : System
system = record {
  pcre = toy;
  sockets = tags;
  registers = λ signal. true;
  starts = λ i. ltb i 3;
  nproc = 4;
  sigint = 2;
  sigpipe = 13;
}

abbrev app : App
app = record {
  address = 4 ∷ 127 ∷ 0 ∷ 0 ∷ 1 ∷ [];
  port = 8080;
  routes = route (codes "/v/foo") 1 ∷ [];
  threads = 5;
}

default_handlers_lem_example :
    handler_of (default_handlers system.registers 2 13 11 12 manager).handlers 2 ≡ some 10
unfolding handler_of
default_handlers_lem_example = default_handlers_lem system.registers 2 13 11 12 2 manager

start_mhd_daemon_lem_example : start_mhd_daemon system.starts 4 5 ≡ record {
  result = cppmhd_listen_failed;
  called = false;
  started = numbers 0 3;
  stopped = numbers 0 3;
}
unfolding running thread_count
start_mhd_daemon_lem_example = start_mhd_daemon_lem system.starts 4 5

thread_count-bound_example : thread_count 4 1000 ≤ 4 * 8
thread_count-bound_example = thread_count-bound 4 1000 (omega arith)

start_lem_example :
    start system 11 12 app manager
    ≡ ended cppmhd_listen_failed (default_handlers system.registers 2 13 11 12 manager)
unfolding running thread_count cppmhd.Router.Table.Building.all_new
    cppmhd.Router.Table.Building.find_route cppmhd.Utils.Address.parse
start_lem_example = start_lem system 11 12 app manager (foo-IsStatic, tt)

-- Two applications, one of which is destroyed, and a handler for signal 2.
abbrev two : AppManager
two = record { handlers = []; apps = 1 ∷ 2 ∷ [] }

abbrev one_left : AppManager
one_left = record { handlers = (2, 9) ∷ []; apps = 2 ∷ [] }

abbrev alive : ℕ → Bool
alive a = if a == 1 then false else if a == 2 then true else if a == 1 then true else false

one_left-Managed : Managed one_left alive
unfolding register destroy erase cppmhd.App.Signals.set_signal_handler
    cppmhd.App.Signals.put_handler
one_left-Managed =
    handled {m = record { handlers = []; apps = 2 ∷ [] }} (λ signal. true) 2 9
      (destroyed {m = two} 1 (made 2 (made 1 at_first refl) refl) refl)

destroy-Managed_example : (m' : AppManager) × (destroy false 2 one_left ≡ some m')
destroy-Managed_example = destroy-Managed one_left alive 2 one_left-Managed refl

signal_handler_wrapper-Managed_example :
    (cs : List (ℕ × ℕ × ℕ)) × (signal_handler_wrapper one_left 2 ≡ some cs)
    × (cs ≡ called_for 9 2 (2 ∷ []))
    × (count 2 (map (λ c. c.1) cs) ≡ 1)
unfolding handler_of
signal_handler_wrapper-Managed_example =
    signal_handler_wrapper-Managed one_left alive 2 9 2 one_left-Managed refl

-- A server for the routes of `app`, and a request to it.
served_routes : Serves toy (prefixed [] app.routes) (build_tree toy [] app.routes)
served_routes = build_tree-Serves toy [] app.routes (foo-IsStatic, tt)

abbrev server : Server
server = record demo { pcre = toy; trees = served_routes.router.trees }

abbrev asked : Call
asked = call (codes "GET") (codes "/v/foo") none 0

connection_cb-find_route_example :
    ((ctrl : ℕ) × (find_route app.routes HttpMethod.get (codes "/v/foo") ≡ some ctrl)
      × (connection_cb server none asked ≡ connected server (opened asked HttpMethod.get) ctrl 0))
    ⊎ ((find_route app.routes HttpMethod.get (codes "/v/foo") ≡ none)
        × ((connection_cb server none asked
              ≡ answers server
                  (opened asked HttpMethod.get)
                  (tsr_response server (opened asked HttpMethod.get).request)
                  0)
            ⊎ (connection_cb server none asked
                ≡ answers server
                    (opened asked HttpMethod.get)
                    (server.error_handler
                      (some (opened asked HttpMethod.get).request)
                      not_found
                      router_not_found
                      (not_found_message server asked))
                    0)))
unfolding parse_http_method strn_equal check_request str_eq
connection_cb-find_route_example =
    connection_cb-find_route server asked HttpMethod.get refl refl app.routes
      served_routes.router.controllers served_routes.router.valid (foo-IsStatic, tt)
      served_routes.result

-- The thread that serves has come, and the application is stopped twice before that thread is woken:
-- the second call waits as well, and however often the threads are woken, neither of them leaves.
abbrev stopped_twice : Barrier
stopped_twice = stop_app (some true) (stop_app (some true) (enter (new_barrier 2)))

stuck : (k : ℕ) → (wake_all k stopped_twice).left ≡ 1
unfolding wake_all stop_app enter wake cppmhd.App.Barrier.notify_all
stuck zero = refl
stuck (suc k) = still k
  where
    still : (k : ℕ) → (wake_all k (wake stopped_twice)).left ≡ 1
    still zero = refl
    still (suc k) = still k
