-- ===== src/App/Start.antt =====
-- `App::start` of lib/src/app.cc: from the routes to the daemons.
use cppmhd.Prelude.{
  ℕ, ◌≡◌, refl, Bool, List, [], ◌∷◌, Str, ◌==◌, if◌then◌else◌, ap, Bool-cases, All, inl, inr, ◌∙◌,
}
use cppmhd.Core.{
  CppmhdError, cppmhd_ok, cppmhd_listen_failed, cppmhd_listen_address_error,
  cppmhd_router_tree_build_failed,
}
use cppmhd.Utils.Regex.{Pcre}
use cppmhd.Utils.Address.{Sockets, zeroed, parse}
use cppmhd.Router.Builder.{Route, BuildResult, build_tree}
use cppmhd.Router.Table.Paths.{IsStatic}
use cppmhd.Router.Table.Building.{prefixed, all_new, build_tree-Serves}
use cppmhd.App.Signals.{AppManager, default_handlers}
use cppmhd.App.Daemons.{thread_count, running, start_mhd_daemon, start_mhd_daemon_lem}

-- What `App::start` uses of the system: the functions on socket addresses, the handlers it takes for
-- signals, whether the i-th daemon starts, the number of processors, and the numbers of two signals.
pub record System : Type 0 where
  pub pcre : Pcre
  pub sockets : Sockets
  pub registers : ℕ → Bool
  pub starts : ℕ → Bool
  pub nproc : ℕ
  pub sigint : ℕ
  pub sigpipe : ℕ

-- The members of `App` that `start` reads.
pub record App : Type 0 where
  pub address : Str
  pub port : ℕ
  pub routes : List Route
  pub threads : ℕ

-- What `start` returns, and the handlers it leaves; `broken` is undefined behaviour in the router.
pub data Ended : Type 0 where
  ended : CppmhdError → AppManager → Ended
  broken : Ended

-- `App::start`, where `stop` and `ignore` stand for the two handlers that it sets itself.
unfoldable pub start : System → (stop ignore : ℕ) → App → AppManager → Ended
unfolding build_tree default_handlers start_mhd_daemon parse
start sys stop ignore app m =
    let (ok, addr) = parse sys.sockets zeroed app.address app.port in
    if ok
    then elim (build_tree sys.pcre [] app.routes) [
      | BuildResult.broken ↦ Ended.broken
      | BuildResult.done r ↦
          if r.valid
          then ended (start_mhd_daemon sys.starts sys.nproc app.threads).result
              (default_handlers sys.registers sys.sigint sys.sigpipe stop ignore m)
          else ended cppmhd_router_tree_build_failed m
    ]
    else ended cppmhd_listen_address_error m

pub prefixed-empty : (rs : List Route) → prefixed [] rs ≡ rs
prefixed-empty [] = refl
prefixed-empty (r ∷ rs) = ap (◌∷◌ r) (prefixed-empty rs)

-- Starting an application with static routes ends without undefined behaviour. It returns an error,
-- and leaves all handlers alone, if the address cannot be read or if two routes have the same method
-- and path. Otherwise it sets the default handlers, and returns CPPMHD_OK exactly if each daemon, of
-- the number of threads that is used, starts.
pub start_lem :
    (sys : System) (stop ignore : ℕ) (app : App) (m : AppManager)
    → All (λ r. IsStatic sys.pcre r.path) app.routes
    → start sys stop ignore app m ≡ (
        if (parse sys.sockets zeroed app.address app.port).0
        then if all_new [] app.routes
          then ended
              (if running sys.starts 0 (thread_count sys.nproc app.threads)
                  == thread_count sys.nproc app.threads
                then cppmhd_ok
                else cppmhd_listen_failed)
              (default_handlers sys.registers sys.sigint sys.sigpipe stop ignore m)
          else ended cppmhd_router_tree_build_failed m
        else ended cppmhd_listen_address_error m)
unfolding start
start_lem sys stop ignore app m v =
    let s = build_tree-Serves sys.pcre [] app.routes v in
    let valid = s.valid ∙ ap (all_new []) (prefixed-empty app.routes) in
    let served = ap (λ d. d.result) (start_mhd_daemon_lem sys.starts sys.nproc app.threads) in
    let handlers = default_handlers sys.registers sys.sigint sys.sigpipe stop ignore m in
    elim (Bool-cases ((parse sys.sockets zeroed app.address app.port).0)) [
      | inl e ↦
          rw (start, e, s.result, valid)
            (ap
              (λ c.
                if all_new [] app.routes
                then ended c handlers
                else ended cppmhd_router_tree_build_failed m)
              served)
      | inr e ↦ rw (start, e)
    ]
