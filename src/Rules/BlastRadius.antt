-- ===== src/Rules/BlastRadius.antt =====
-- app/domain/rules/blast_radius.py: the rate limits as a rule of the decision. The pruning of its
-- dictionaries is, word for word, that of the validator.
pub mod Agreement
use devflowfix.Base.{
  ℕ, ◌+◌, ◌<◌, ◌≡◌, Bool, true, false, Option, none, some, List, [], ◌∷◌, ◌++◌, String, Dict,
  lookup, insert, keep, ltb, leb, if◌then◌else◌,
}
use devflowfix.Limits.{
  Settings, one_hour, one_day, fifteen_minutes, younger, recent, times_of, cleanup_hourly,
  cleanup_failures,
}

pub record RuleTracker : Type 0 where
  pub hourly_fixes : Dict (List ℕ)
  pub daily_fixes : List ℕ
  pub last_failure_times : Dict ℕ

unfoldable pub record_execution : ℕ → String → RuleTracker → RuleTracker
record_execution now service s = record s {
  hourly_fixes = insert service (times_of service s.hourly_fixes ++ now ∷ []) s.hourly_fixes;
  daily_fixes = s.daily_fixes ++ now ∷ [];
}

unfoldable pub record_failure : ℕ → String → RuleTracker → RuleTracker
record_failure now service s = record s {
  last_failure_times = insert service now s.last_failure_times;
}

unfoldable pub cleanup_tracker : ℕ → RuleTracker → RuleTracker
cleanup_tracker now s = record {
  hourly_fixes = cleanup_hourly now s.hourly_fixes;
  daily_fixes = keep (younger one_day now) s.daily_fixes;
  last_failure_times = cleanup_failures now s.last_failure_times;
}

unfoldable pub hourly_passes : Settings → ℕ → String → RuleTracker → Bool
hourly_passes c now service s =
    ltb (recent one_hour now (times_of service s.hourly_fixes)) c.max_fixes_per_hour

unfoldable pub daily_passes : Settings → ℕ → RuleTracker → Bool
daily_passes c now s = ltb (recent one_day now s.daily_fixes) c.max_fixes_per_day

abbrev cooled : ℕ → Option ℕ → Bool
cooled now none = true
cooled now (some last) = if ltb now (last + fifteen_minutes) then false else true

unfoldable pub cooling_passes : ℕ → String → RuleTracker → Bool
cooling_passes now service s = cooled now (lookup service s.last_failure_times)

-- The readings of the clock in one `evaluate`; those behind a failing check are not taken.
pub record RuleReadings : Type 0 where
  pub cleanup : ℕ
  pub hourly : ℕ
  pub daily : ℕ
  pub cooling : ℕ

unfoldable pub evaluate_blast_radius :
    Settings → RuleReadings → String → RuleTracker → RuleTracker × Bool
unfolding hourly_passes daily_passes cooling_passes
evaluate_blast_radius c r service s =
    let s' = cleanup_tracker r.cleanup s in
    if hourly_passes c r.hourly service s'
    then (if daily_passes c r.daily s'
        then (if cooling_passes r.cooling service s' then (s', true) else (s', false))
        else (s', false))
    else (s', false)

-- `BlastRadiusRule()`, and the state that `reset_statistics` leaves
unfoldable pub no_records : RuleTracker
no_records = record { hourly_fixes = []; daily_fixes = []; last_failure_times = [] }
