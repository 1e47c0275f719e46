-- ===== src/Logger.antt =====
-- The logger of lib/src/logger.cc and lib/src/logger.h that the library starts with.
mod Tests
use cppmhd.Prelude.{
  ℕ, suc, ◌≤◌, ◌≡◌, refl, Bool, true, false, ◌&&◌, List, [], ◌∷◌, ◌++◌, Str, codes, decimal, ltb,
  leb, if◌then◌else◌, All, arith, Bool-cases, inl, inr, sym, ap, ◌∙◌,
}
use mathlib.Core.List.{append-nil, append_assoc}

-- `LogLevel` is the number of the constant; `dtrace` is LV_DTRACE.
pub data LogLevel : Type 0 where
  trace debug info warning error fatal dtrace : LogLevel

abbrev pub level_value : LogLevel → ℕ
level_value trace = 0
level_value debug = 1
level_value info = 2
level_value warning = 3
level_value error = 4
level_value fatal = 5
level_value dtrace = 6

-- A line that is printed, without the time and the place in the source.
pub record Line : Type 0 where
  pub level : LogLevel
  pub message : Str

-- `level`, and what stdout has got.
pub record Log : Type 0 where
  pub level : LogLevel
  pub printed : List Line

abbrev pub at_least : LogLevel → LogLevel → Bool
at_least a b = leb (level_value b) (level_value a)

abbrev print : LogLevel → Str → Log → Log
print lv message log = record log {
  printed = log.printed ++ record { level = lv; message = message } ∷ [];
}

-- `output` of a level up to `kError`, in builds with assertions and without.
abbrev output_known : LogLevel → Str → Log → Log
output_known lv message log = if at_least lv log.level then print lv message log else log

abbrev invalid_level : LogLevel → Str
invalid_level lv =
    codes "invalid LogLevel " ++ (decimal (level_value lv) ++ codes ". Assume as kInfo")

-- `SimpleSTDOUTLogger::output`. Without assertions (`ndebug`) a level above `kError` leads to a warning,
-- which names the logger's own level, and sets that.
unfoldable pub output : Bool → LogLevel → Str → Log → Log
output ndebug lv message log =
    if at_least lv log.level
    then if ndebug && ltb (level_value error) (level_value lv)
      then print lv message
          (record (output_known warning (invalid_level log.level) log) { level = info })
      else print lv message log
    else log

-- `LOGIT(lv, msg)`
unfoldable pub log_it : Bool → LogLevel → Str → Log → Log
unfolding output
log_it ndebug lv message log = if at_least lv log.level then output ndebug lv message log else log

-- `setLogLevel`
unfoldable pub set_log_level : LogLevel → Log → Log
set_log_level lv log =
    if leb (level_value lv) (level_value error) then record log { level = lv } else log

-- The messages of a run, one after the other.
unfoldable pub log_all : Bool → List Line → Log → Log
unfolding log_it
log_all ndebug [] log = log
log_all ndebug (l ∷ ls) log = log_all ndebug ls (log_it ndebug l.level l.message log)

-- The lines of at least a level.
abbrev pub lines_from : LogLevel → List Line → List Line
lines_from lv [] = []
lines_from lv (l ∷ ls) =
    if ltb (level_value l.level) (level_value lv) then lines_from lv ls else l ∷ lines_from lv ls

log_it-known :
    (ndebug : Bool) (l : Line) (log : Log)
    → level_value l.level ≤ 4
    → log_it ndebug l.level l.message log
      ≡ (if at_least l.level log.level then print l.level l.message log else log)
unfolding log_it output
log_it-known true l log h =
    let low : ltb 4 (level_value l.level) ≡ false = ground (arith, h) in
    elim (Bool-cases (at_least l.level log.level)) [ inl e ↦ rw (e, low) refl | inr e ↦ rw e refl ]
log_it-known false l log h = elim (Bool-cases (at_least l.level log.level)) [
  | inl e ↦ rw e refl
  | inr e ↦ rw e refl
]

-- Of messages up to the level of errors, exactly those of at least the logger's level are printed, in
-- order, and the level stays.
pub log_all-lines_from :
    (ndebug : Bool) (ls : List Line) (log : Log)
    → All (λ l. level_value l.level ≤ 4) ls
    → log_all ndebug ls log ≡ record log { printed = log.printed ++ lines_from log.level ls }
unfolding log_all log_it output
log_all-lines_from ndebug [] log v =
    ap (λ ps. record log { printed = ps }) (sym (append-nil log.printed))
log_all-lines_from ndebug (l ∷ ls) log (h, v) =
    let one = ap (log_all ndebug ls) (log_it-known ndebug l log h) in
    one ∙ elim (Bool-cases (at_least l.level log.level)) [
      | inl e ↦
          let next = print l.level l.message log in
          let high : ltb (level_value l.level) (level_value log.level) ≡ false =
            ground (arith, e) in
          rw (e, high)
            (log_all-lines_from ndebug ls next v
              ∙ ap (λ ps. record log { printed = ps })
                  (append_assoc log.printed (l ∷ []) (lines_from log.level ls)))
      | inr e ↦
          let low : ltb (level_value l.level) (level_value log.level) ≡ true = ground (arith, e) in
          rw (e, low) (log_all-lines_from ndebug ls log v)
    ]

-- What a program does with the logger: it sets the level, or has a message of any level put out.
pub data Action : Type 0 where
  sets : LogLevel → Action
  puts : LogLevel → Str → Action

abbrev act : Bool → Action → Log → Log
act ndebug (sets lv) log = set_log_level lv log
act ndebug (puts lv message) log = output ndebug lv message log

abbrev pub act_all : Bool → List Action → Log → Log
act_all ndebug [] log = log
act_all ndebug (a ∷ acts) log = act_all ndebug acts (act ndebug a log)

act-level :
    (ndebug : Bool) (a : Action) (log : Log)
    → level_value log.level ≤ 4
    → level_value (act ndebug a log).level ≤ 4
unfolding set_log_level output
act-level ndebug (sets lv) log h = elim (Bool-cases (leb (level_value lv) 4)) [
  | inl e ↦ rw e (ground (arith, e))
  | inr e ↦ rw e h
]
act-level ndebug (puts lv message) log h = elim (Bool-cases (at_least lv log.level)) [
  | inl e ↦ elim (Bool-cases (ndebug && ltb 4 (level_value lv))) [
    | inl f ↦ rw (e, f) (omega arith)
    | inr f ↦ rw (e, f) h
  ]
  | inr e ↦ rw e h
]

-- The level stays at most that of errors, so that no error is ever held back.
pub act_all-level :
    (ndebug : Bool) (acts : List Action) (log : Log)
    → level_value log.level ≤ 4
    → (level_value (act_all ndebug acts log).level ≤ 4)
      × (at_least error (act_all ndebug acts log).level ≡ true)
act_all-level ndebug [] log h = (h, ground (arith, h))
act_all-level ndebug (a ∷ acts) log h =
    act_all-level ndebug acts (act ndebug a log) (act-level ndebug a log h)
