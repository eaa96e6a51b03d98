-- ===== src/Rules/BlastRadius/Agreement.antt =====
-- app/domain/rules/blast_radius.py beside app/domain/validators/blast_radius.py.
use devflowfix.Base.{ℕ, ◌<◌, ◌≡◌, String, arith}
use devflowfix.Limits.{Settings, Tracker, Readings, validate, cleanup_old_entries}
use devflowfix.Limits.Verdict.{checks_passed}
use devflowfix.Rules.BlastRadius.{RuleTracker, RuleReadings, evaluate_blast_radius, cleanup_tracker}

-- The tracker of a validator with the rule's records and some executions running, and the clock
-- readings of a validator with the rule's.
abbrev pub with_running : ℕ → RuleTracker → Tracker
with_running n s = record {
  hourly_fixes = s.hourly_fixes;
  daily_fixes = s.daily_fixes;
  concurrent_executions = n;
  last_failure_times = s.last_failure_times;
}

abbrev pub with_health : ℕ → RuleReadings → Readings
with_health t r = record {
  cleanup = r.cleanup;
  hourly = r.hourly;
  daily = r.daily;
  cooling = r.cooling;
  health = t;
}

-- On the same records and at the same times, the rule and the validator give the same verdict on a
-- service while fewer executions run than allowed, and leave the same records.
pub evaluate_agrees :
    (c : Settings) (r : RuleReadings) (health n : ℕ) (service : String) (s : RuleTracker)
    → n < c.max_concurrent_remediations
    → let (t, result) = validate c (with_health health r) service (with_running n s) in
      ((evaluate_blast_radius c r service s).1 ≡ result.passed)
      × (with_running n (evaluate_blast_radius c r service s).0 ≡ t)
unfolding evaluate_blast_radius cleanup_tracker validate cleanup_old_entries
evaluate_agrees c r health n service s l = (
  ground (
    arith,
    checks_passed c (with_health health r) service (with_running n (cleanup_tracker r.cleanup s)),
  ),
  ground arith,
)
