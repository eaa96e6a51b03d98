-- ===== src/Rules/Tests.antt =====
-- Concrete rules for app/domain/rules.
use devflowfix.Base.{◌≡◌, [], ◌∷◌, arith}
use devflowfix.Limits.{Settings, validate}
use devflowfix.Rules.BlastRadius.{RuleTracker, RuleReadings, evaluate_blast_radius}
use devflowfix.Rules.BlastRadius.Agreement.{with_running, with_health, evaluate_agrees}
use devflowfix.Rules.Confidence.{Thresholds}

abbrev pub small : Settings
small = record { max_fixes_per_hour = 2; max_fixes_per_day = 5; max_concurrent_remediations = 1 }

abbrev pub busy : RuleTracker
busy = record {
  hourly_fixes = ("api", 10 ∷ 20 ∷ []) ∷ [];
  daily_fixes = 10 ∷ 20 ∷ [];
  last_failure_times = ("web", 15) ∷ [];
}

abbrev pub readings : RuleReadings
readings = record { cleanup = 30; hourly = 31; daily = 32; cooling = 33 }

evaluate_agrees_example :
    let (t, result) = validate small (with_health 34 readings) "api" (with_running 0 busy) in
    ((evaluate_blast_radius small readings "api" busy).1 ≡ result.passed)
    × (with_running 0 (evaluate_blast_radius small readings "api" busy).0 ≡ t)
evaluate_agrees_example = evaluate_agrees small readings 34 0 "api" busy (omega arith)

abbrev pub defaults : Thresholds
defaults = record { min_confidence = 7000; high_confidence = 8500; production_confidence = 9500 }
