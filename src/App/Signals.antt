-- ===== src/App/Signals.antt =====
-- `AppManager` and the signal handlers of `App` of lib/src/app.cc.
use cppmhd.Prelude.{
  ℕ, ◌≡◌, refl, Bool, true, false, Option, none, some, List, [], ◌∷◌, is_some, ◌==◌, if◌then◌else◌,
  arith, Bool-cases, inl, inr, ◌&&◌, ap, ==_iff, ==_self, Option-cases,
}

-- The handlers by signal, and the applications; a handler is a number.
pub record AppManager : Type 0 where
  pub handlers : List (ℕ × ℕ)
  pub apps : List ℕ

-- The handler that `std::find_if` finds for a signal.
unfoldable pub handler_of : List (ℕ × ℕ) → ℕ → Option ℕ
handler_of [] signal = none
handler_of ((s, h) ∷ hs) signal = if s == signal then some h else handler_of hs signal

-- `have(sig)`
unfoldable pub have : AppManager → ℕ → Bool
have m signal = is_some (handler_of m.handlers signal)

-- The found item gets the new handler, or there is a new one at the end.
unfoldable pub put_handler : List (ℕ × ℕ) → ℕ → ℕ → List (ℕ × ℕ)
put_handler [] signal sh = (signal, sh) ∷ []
put_handler ((s, h) ∷ hs) signal sh =
    if s == signal then (s, sh) ∷ hs else (s, h) ∷ put_handler hs signal sh

-- `setSignalHandler`, where `registers` says whether the system takes a handler for a signal.
unfoldable pub set_signal_handler : (ℕ → Bool) → ℕ → ℕ → AppManager → Bool × AppManager
unfolding put_handler
set_signal_handler registers signal sh m =
    if registers signal
    then (true, record m { handlers = put_handler m.handlers signal sh })
    else (false, m)

-- A handler is called for each application.
abbrev pub called_for : ℕ → ℕ → List ℕ → List (ℕ × ℕ × ℕ)
called_for h signal [] = []
called_for h signal (app ∷ apps) = (h, app, signal) ∷ called_for h signal apps

-- The calls that `signalHandlerWrapper` makes, as handler, application and signal. `none` is the
-- assertion that there is a handler.
unfoldable pub signal_handler_wrapper : AppManager → ℕ → Option (List (ℕ × ℕ × ℕ))
unfolding handler_of
signal_handler_wrapper m signal = elim (handler_of m.handlers signal) [
  | none ↦ none
  | some h ↦ some (called_for h signal m.apps)
]

-- `listSignals`
unfoldable pub list_signals : List (ℕ × ℕ) → List ℕ
list_signals [] = []
list_signals ((s, h) ∷ hs) = s ∷ list_signals hs

-- `App::start` sets a handler unless there is one.
unfoldable pub set_default : (ℕ → Bool) → ℕ → ℕ → AppManager → AppManager
unfolding have set_signal_handler
set_default registers signal sh m =
    if have m signal then m else (set_signal_handler registers signal sh m).1

-- The handlers of `App::start`: `stop` for SIGINT and `ignore` for SIGPIPE.
unfoldable pub default_handlers :
    (ℕ → Bool) → (sigint sigpipe stop ignore : ℕ) → AppManager → AppManager
unfolding set_default
default_handlers registers sigint sigpipe stop ignore m =
    set_default registers sigpipe ignore (set_default registers sigint stop m)

handler_of-put_handler :
    (hs : List (ℕ × ℕ)) (signal sh q : ℕ)
    → handler_of (put_handler hs signal sh) q ≡ (if signal == q then some sh else handler_of hs q)
unfolding handler_of put_handler
handler_of-put_handler [] signal sh q = refl
handler_of-put_handler ((s, h) ∷ hs) signal sh q =
    ground (arith, handler_of-put_handler hs signal sh q)

-- Setting a handler returns true exactly if the system takes it. Then the signal has that handler,
-- and each other signal keeps the one it had; otherwise nothing changes. The applications stay.
pub set_signal_handler_lem :
    (registers : ℕ → Bool) (signal sh q : ℕ) (m : AppManager)
    → let (done, m') = set_signal_handler registers signal sh m in
      (done ≡ registers signal)
      × (m'.apps ≡ m.apps)
      × (handler_of m'.handlers q
          ≡ (if registers signal && signal == q then some sh else handler_of m.handlers q))
unfolding set_signal_handler
set_signal_handler_lem registers signal sh q m = elim (Bool-cases (registers signal)) [
  | inl e ↦ rw (set_signal_handler, e) (refl, refl, handler_of-put_handler m.handlers signal sh q)
  | inr e ↦ rw (set_signal_handler, e) (refl, refl, refl)
]

set_default-handler_of :
    (registers : ℕ → Bool) (signal sh q : ℕ) (m : AppManager)
    → handler_of (set_default registers signal sh m).handlers q ≡ elim (handler_of m.handlers q) [
      | some h ↦ some h
      | none ↦ if registers signal && signal == q then some sh else none
    ]
unfolding set_default have set_signal_handler
set_default-handler_of registers signal sh q m =
    let put = handler_of-put_handler m.handlers signal sh q in
    let same : (signal == q) ≡ true → handler_of m.handlers signal ≡ handler_of m.handlers q =
      λ e. ap (handler_of m.handlers) ((==_iff signal q).0 e) in
    elim (Bool-cases (signal == q)) [
      | inl e ↦ ground (
        arith,
        put,
        same e,
        Option-cases (handler_of m.handlers q),
        Bool-cases (registers signal),
      )
      | inr e ↦
          ground
            (arith, put, e, Option-cases (handler_of m.handlers q), Bool-cases (registers signal))
    ]

-- Starting an application keeps the handler of every signal that has one, and gives SIGINT and
-- SIGPIPE theirs if they have none and the system takes them.
pub default_handlers_lem :
    (registers : ℕ → Bool) (sigint sigpipe stop ignore q : ℕ) (m : AppManager)
    → handler_of (default_handlers registers sigint sigpipe stop ignore m).handlers q
      ≡ elim (handler_of m.handlers q) [
        | some h ↦ some h
        | none ↦
            if registers sigint && sigint == q
            then some stop
            else if registers sigpipe && sigpipe == q
            then some ignore
            else none
      ]
unfolding default_handlers
default_handlers_lem registers sigint sigpipe stop ignore q m = ground (
  arith,
  set_default-handler_of registers sigint stop q m,
  set_default-handler_of registers sigpipe ignore q (set_default registers sigint stop m),
)

-- After a handler has been set for a signal, the signal calls that handler once for each application,
-- in the order in which they were made.
pub signal_handler_wrapper-set_signal_handler :
    (registers : ℕ → Bool) (signal sh : ℕ) (m : AppManager)
    → registers signal ≡ true
    → signal_handler_wrapper (set_signal_handler registers signal sh m).1 signal
      ≡ some (called_for sh signal m.apps)
unfolding signal_handler_wrapper
signal_handler_wrapper-set_signal_handler registers signal sh m e =
    let (done, same, found) = set_signal_handler_lem registers signal sh signal m in
    rw (signal_handler_wrapper, found, e, ==_self signal)
      (ap (λ apps. some (called_for sh signal apps)) same)
