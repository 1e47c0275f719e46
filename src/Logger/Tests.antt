-- ===== src/Logger/Tests.antt =====
-- A logger of warnings, and a fatal message.
use cppmhd.Prelude.{◌≡◌, refl, true, List, [], ◌∷◌, ◌++◌, codes, arith}
use cppmhd.Logger.{
  info, warning, error, fatal, trace, Line, Log, log_all, lines_from, log_all-lines_from, output,
}

abbrev messages : List Line
messages =
    record { level = trace; message = codes "a" }
    ∷ record { level = error; message = codes "b" }
    ∷ []

abbrev warnings : Log
warnings = record { level = warning; printed = [] }

log_all-lines_from_example :
    log_all true messages warnings ≡ record warnings { printed = [] ++ lines_from warning messages }
log_all-lines_from_example =
    log_all-lines_from true messages warnings (omega arith, (omega arith, tt))

-- Without assertions a fatal message changes the level.
fatal_changes_level : (output true fatal (codes "x") warnings).level ≡ info
unfolding output
fatal_changes_level = refl
