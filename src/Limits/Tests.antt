-- ===== src/Limits/Tests.antt =====
-- Concrete trackers for app/domain/validators/blast_radius.py.
use devflowfix.Base.{◌≡◌, ◌↔◌, refl, true, false, [], ◌∷◌, arith, lookup, keep, all}
use devflowfix.Validation.{errors_passed}
use devflowfix.Limits.{
  Settings, Readings, Tracker, validate, no_fixes, cleanup_old_entries, cleanup_hourly,
  cleanup_failures, recent, checks_of, record_execution_start,
}
use devflowfix.Limits.Verdict.{InOrder, HasUniqueKeys, Allows, validate_iff}
use devflowfix.Limits.Runs.{World, Reach, starts, here, next, fresh}
use devflowfix.Limits.Mirror.{Mirrors}
use devflowfix.Limits.History.{WithinLimits, Reach-WithinLimits, Reach-Mirrors}

abbrev defaults : Settings
defaults = record {
  max_fixes_per_hour = 10;
  max_fixes_per_day = 50;
  max_concurrent_remediations = 5;
}

abbrev noon : Readings
noon = record { cleanup = 100; hourly = 101; daily = 102; cooling = 103; health = 104 }

abbrev failed_once : Tracker
failed_once = record {
  hourly_fixes = ("api", 50 ∷ []) ∷ [];
  daily_fixes = 50 ∷ [];
  concurrent_executions = 1;
  last_failure_times = ("api", 60) ∷ [];
}

failed_once-HasUniqueKeys : HasUniqueKeys failed_once
unfolding lookup
failed_once-HasUniqueKeys = record { hourly_unique = (refl, tt); failures_unique = (refl, tt) }

noon-InOrder : InOrder noon
noon-InOrder = omega arith

validate_iff_example :
    ((validate defaults noon "api" failed_once).1.passed ≡ true)
    ↔ Allows defaults noon "api" failed_once
validate_iff_example =
    validate_iff defaults noon "api" failed_once failed_once-HasUniqueKeys noon-InOrder

failed_once_refused : (validate defaults noon "api" failed_once).1.passed ≡ false
unfolding validate cleanup_old_entries checks_of errors_passed recent lookup keep all cleanup_hourly
    cleanup_failures
failed_once_refused = refl

abbrev one_fix : World
one_fix = record {
  now = 200;
  tracker = record_execution_start 200 "api" (validate defaults noon "api" no_fixes).0;
  log = record { service = "api"; at = 200 } ∷ [];
  running = 1;
}

one_fix_reached : Reach defaults (fresh 0) one_fix
unfolding fresh validate cleanup_old_entries checks_of errors_passed recent lookup keep all
    cleanup_hourly cleanup_failures no_fixes
one_fix_reached =
    next here (starts (fresh 0) noon "api" 200 (omega arith) noon-InOrder (omega arith) refl)

Reach-WithinLimits_example : WithinLimits defaults one_fix
Reach-WithinLimits_example = Reach-WithinLimits defaults 0 one_fix one_fix_reached

Reach-Mirrors_example : Mirrors 200 one_fix.tracker one_fix.log
Reach-Mirrors_example = Reach-Mirrors defaults 0 one_fix one_fix_reached
