-- ===== src/App/Lifetime.antt =====
-- The list of applications of `AppManager`: the constructor and the destructor of `App`, and its
-- signals, in lib/src/app.cc.
use cppmhd.Prelude.{
  ℕ, ◌+◌, ◌≡◌, refl, Bool, true, false, Option, none, some, List, [], ◌∷◌, ◌++◌, Str, ◌==◌,
  if◌then◌else◌, map, ltb, count, count-append, arith, ap, ◌∙◌, sym, Bool-cases, Option-cases, inl,
  inr, ==_comm, ==_iff, subst,
}
use cppmhd.App.Signals.{
  AppManager, handler_of, set_signal_handler, called_for, signal_handler_wrapper,
  set_signal_handler_lem,
}
use cppmhd.App.Start.{App}

-- What the constructor sets of the members of `App`; `nproc` is `getNProc()`.
unfoldable pub new_app : ℕ → Str → ℕ → App
new_app nproc addr port = record { address = addr; port = port; routes = []; threads = nproc }

-- `threadCount(tc)`, which a running application ignores.
unfoldable pub set_thread_count : Bool → ℕ → App → App
set_thread_count running tc app = if running then app else record app { threads = tc }

-- The constructor registers the application, which is a number.
unfoldable pub register : ℕ → AppManager → AppManager
register app m = record m { apps = m.apps ++ app ∷ [] }

-- `std::find` and `erase`; `none` is the end of the vector.
unfoldable pub erase : ℕ → List ℕ → Option (List ℕ)
erase app [] = none
erase app (a ∷ apps) =
    if a == app
    then some apps
    else elim (erase app apps) [ none ↦ none | some rest ↦ some (a ∷ rest) ]

-- The destructor; `none` is an assertion that fails.
unfoldable pub destroy : Bool → ℕ → AppManager → Option AppManager
unfolding erase
destroy running app m =
    if running
    then none
    else elim (erase app m.apps) [ none ↦ none | some apps ↦ some (record m { apps = apps }) ]

-- What a program brings the manager to, with the applications that are alive then.
pub data Managed : AppManager → (ℕ → Bool) → Type 0 where
  at_first : Managed (record { handlers = []; apps = [] }) (λ app. false)
  made :
      {m : AppManager} {alive : ℕ → Bool} (app : ℕ)
      → Managed m alive
      → alive app ≡ false
      → Managed (register app m) (λ a. if a == app then true else alive a)
  handled :
      {m : AppManager} {alive : ℕ → Bool} (registers : ℕ → Bool) (signal sh : ℕ)
      → Managed m alive
      → Managed (set_signal_handler registers signal sh m).1 alive
  destroyed :
      {m m' : AppManager} {alive : ℕ → Bool} (app : ℕ)
      → Managed m alive
      → destroy false app m ≡ some m'
      → Managed m' (λ a. if a == app then false else alive a)

erase-count :
    (app a : ℕ) (apps rest : List ℕ)
    → erase app apps ≡ some rest
    → count a apps ≡ (if a == app then 1 else 0) + count a rest
unfolding erase count
erase-count app a [] rest e = cc
erase-count app a (b ∷ apps) rest e = elim (Bool-cases (b == app)) [
  | inl f ↦
      let same : apps ≡ rest = ground (arith, e, f) in
      let is : b ≡ app = (==_iff b app).0 f in
      subst (λ r. count a (b ∷ apps) ≡ (if a == app then 1 else 0) + count a r) same
        (rw (is, ==_comm app a) refl)
  | inr f ↦ elim (Option-cases (erase app apps)) [
    | inl g ↦ absurd (ground (arith, e, f, g))
    | inr (r, g) ↦
        let same : b ∷ r ≡ rest = ground (arith, e, f, g) in
        let ih = erase-count app a apps r g in
        subst (λ v. count a (b ∷ apps) ≡ (if a == app then 1 else 0) + count a v) same
          (omega (arith, ih))
  ]
]

-- An application that is in the list is found.
erase-found :
    (app : ℕ) (apps : List ℕ)
    → (ltb 0 (count app apps)) ≡ true
    → (rest : List ℕ) × (erase app apps ≡ some rest)
unfolding erase count
erase-found app [] h = absurd (ground (arith, h))
erase-found app (b ∷ apps) h = elim (Bool-cases (b == app)) [
  | inl f ↦ (apps, rw (erase, f) refl)
  | inr f ↦
      let h' : ltb 0 (count app apps) ≡ true = ground (arith, h, f) in
      let (rest, e) = erase-found app apps h' in (b ∷ rest, rw (erase, f, e) refl)
]

destroy-erase :
    (app : ℕ) (m m' : AppManager)
    → destroy false app m ≡ some m'
    → (erase app m.apps ≡ some m'.apps) × (m'.handlers ≡ m.handlers)
unfolding destroy
destroy-erase app m m' e = elim (Option-cases (erase app m.apps)) [
  | inl f ↦ absurd (ground (arith, e, f))
  | inr (apps, f) ↦
      let same : record m { apps = apps } ≡ m' = ground (arith, e, f) in
      (
        f ∙ ap (λ (x : AppManager). some x.apps) same,
        sym (ap (λ (x : AppManager). x.handlers) same),
      )
]

-- Every application that is alive is in the list once, and no other is in it.
pub Managed-count :
    (m : AppManager) (alive : ℕ → Bool)
    → Managed m alive
    → (a : ℕ) → count a m.apps ≡ (if alive a then 1 else 0)
unfolding register count
Managed-count m alive at_first a = refl
Managed-count m alive (made {m = old} {alive = were} app r fresh) a =
    let ih = Managed-count old were r a in
    let more = count-append a old.apps (app ∷ []) in
    elim (Bool-cases (a == app)) [
      | inl e ↦
          let is : a ≡ app = (==_iff a app).0 e in
          let dead : were a ≡ false = ap were is ∙ fresh in
          ground (arith, ih, more, e, dead, ==_comm a app)
      | inr e ↦ ground (arith, ih, more, e, ==_comm a app)
    ]
Managed-count m alive (handled {m = old} registers signal sh r) a =
    let (_, apps, _) = set_signal_handler_lem registers signal sh 0 old in
    ap (count a) apps ∙ Managed-count old alive r a
Managed-count m alive (destroyed {m = old} {alive = were} app r e) a =
    let ih = Managed-count old were r a in
    let gone = erase-count app a old.apps m.apps (destroy-erase app old m e).0 in
    ground (arith, ih, gone, Bool-cases (a == app), Bool-cases (were a))

-- An application that is alive and not running can be destroyed: the destructor finds it.
pub destroy-Managed :
    (m : AppManager) (alive : ℕ → Bool) (app : ℕ)
    → Managed m alive
    → alive app ≡ true
    → (m' : AppManager) × (destroy false app m ≡ some m')
unfolding destroy
destroy-Managed m alive app r h =
    let c = Managed-count m alive r app in
    let there : ltb 0 (count app m.apps) ≡ true = ground (arith, c, h) in
    let (apps, e) = erase-found app m.apps there in (record m { apps = apps }, rw (destroy, e) refl)

called_apps : (h signal : ℕ) (apps : List ℕ) → map (λ c. c.1) (called_for h signal apps) ≡ apps
called_apps h signal [] = refl
called_apps h signal (a ∷ apps) = ap (◌∷◌ a) (called_apps h signal apps)

-- A signal whose handler is set calls that handler once for each application that is alive, and for
-- no other, whatever applications were made and destroyed before.
pub signal_handler_wrapper-Managed :
    (m : AppManager) (alive : ℕ → Bool) (signal h a : ℕ)
    → Managed m alive
    → handler_of m.handlers signal ≡ some h
    → (cs : List (ℕ × ℕ × ℕ)) × (signal_handler_wrapper m signal ≡ some cs)
      × (cs ≡ called_for h signal m.apps)
      × (count a (map (λ c. c.1) cs) ≡ (if alive a then 1 else 0))
unfolding signal_handler_wrapper
signal_handler_wrapper-Managed m alive signal h a r e =
    let cs = called_for h signal m.apps in
    (
      cs,
      rw (signal_handler_wrapper, e) refl,
      refl,
      ap (count a) (called_apps h signal m.apps) ∙ Managed-count m alive r a,
    )
