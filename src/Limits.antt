-- ===== src/Limits.antt =====
-- app/domain/validators/blast_radius.py: the rate limits on automatic fixes. A time is a number of
-- microseconds, and each reading of the clock is an argument of its own.
pub mod Cleanup
pub mod Verdict
pub mod Windows
pub mod Runs
pub mod Mirror
pub mod History
mod Tests
use devflowfix.Base.{
  ℕ, suc, ◌+◌, ◌-◌, ◌*◌, Bool, true, false, not, ◌&&◌, Option, none, some, List, [], ◌∷◌, ◌++◌,
  String, Dict, lookup, insert, length, keep, is_empty, ltb, leb, if◌then◌else◌,
}
use devflowfix.Validation.{
  CheckName, Check, ValidationResult, error, warning, create_check, create_check_at, errors_passed,
  hourly_limit, daily_limit, concurrent_limit, cooling_period, service_health_score,
}

abbrev pub one_hour : ℕ
one_hour = 3600000000

abbrev pub one_day : ℕ
one_day = 86400000000

abbrev pub fifteen_minutes : ℕ
fifteen_minutes = 900000000

pub record Settings : Type 0 where
  pub max_fixes_per_hour : ℕ
  pub max_fixes_per_day : ℕ
  pub max_concurrent_remediations : ℕ

pub record Tracker : Type 0 where
  pub hourly_fixes : Dict (List ℕ)
  pub daily_fixes : List ℕ
  pub concurrent_executions : ℕ
  pub last_failure_times : Dict ℕ

-- `BlastRadiusValidator()`, and the state that `reset_statistics` leaves
unfoldable pub no_fixes : Tracker
no_fixes = record {
  hourly_fixes = [];
  daily_fixes = [];
  concurrent_executions = 0;
  last_failure_times = [];
}

-- ts > now - age, without a subtraction
abbrev pub younger : ℕ → ℕ → ℕ → Bool
younger age now ts = ltb now (ts + age)

-- How many of the times lie less than `age` before `now`.
unfoldable pub recent : ℕ → ℕ → List ℕ → ℕ
recent age now ts = length (keep (younger age now) ts)

abbrev pub times_of : String → Dict (List ℕ) → List ℕ
times_of service d = elim (lookup service d) [ none ↦ [] | some ts ↦ ts ]

unfoldable pub record_execution_start : ℕ → String → Tracker → Tracker
record_execution_start now service s = record s {
  hourly_fixes = insert service (times_of service s.hourly_fixes ++ now ∷ []) s.hourly_fixes;
  daily_fixes = s.daily_fixes ++ now ∷ [];
  concurrent_executions = s.concurrent_executions + 1;
}

-- The subtraction stops at 0, as the `max` of the source makes it.
unfoldable pub record_execution_end : ℕ → String → Bool → Tracker → Tracker
record_execution_end now service success s = record s {
  concurrent_executions = s.concurrent_executions - 1;
  last_failure_times =
      if success then s.last_failure_times else insert service now s.last_failure_times;
}

unfoldable pub cleanup_hourly : ℕ → Dict (List ℕ) → Dict (List ℕ)
cleanup_hourly now [] = []
cleanup_hourly now ((service, ts) ∷ d) =
    let rest = cleanup_hourly now d in
    let kept = keep (younger one_hour now) ts in
    if is_empty kept then rest else (service, kept) ∷ rest

-- A failure is dropped where its time is below now - one day.
unfoldable pub cleanup_failures : ℕ → Dict ℕ → Dict ℕ
cleanup_failures now [] = []
cleanup_failures now ((service, t) ∷ d) =
    let rest = cleanup_failures now d in if ltb (t + one_day) now then rest else (service, t) ∷ rest

unfoldable pub cleanup_old_entries : ℕ → Tracker → Tracker
cleanup_old_entries now s = record s {
  hourly_fixes = cleanup_hourly now s.hourly_fixes;
  daily_fixes = keep (younger one_day now) s.daily_fixes;
  last_failure_times = cleanup_failures now s.last_failure_times;
}

unfoldable pub check_hourly_limit : Settings → ℕ → String → Tracker → Check
check_hourly_limit c now service s =
    if leb c.max_fixes_per_hour (recent one_hour now (times_of service s.hourly_fixes))
    then create_check_at hourly_limit false error
    else create_check hourly_limit true

-- current_count >= max_per_day * 0.8, over whole numbers
unfoldable pub check_daily_limit : Settings → ℕ → Tracker → Check
check_daily_limit c now s =
    if leb c.max_fixes_per_day (recent one_day now s.daily_fixes)
    then create_check_at daily_limit false error
    else if leb (c.max_fixes_per_day * 4) (recent one_day now s.daily_fixes * 5)
    then create_check_at daily_limit true warning
    else create_check daily_limit true

unfoldable pub check_concurrent_limit : Settings → Tracker → Check
check_concurrent_limit c s =
    if leb c.max_concurrent_remediations s.concurrent_executions
    then create_check_at concurrent_limit false error
    else create_check concurrent_limit true

abbrev cooling_since : ℕ → Option ℕ → Check
cooling_since now none = create_check cooling_period true
cooling_since now (some last) =
    if ltb now (last + fifteen_minutes)
    then create_check_at cooling_period false error
    else create_check cooling_period true

unfoldable pub check_cooling_period : ℕ → String → Tracker → Check
check_cooling_period now service s = cooling_since now (lookup service s.last_failure_times)

unfoldable pub check_service_health_score : ℕ → String → Tracker → Check
check_service_health_score now service s =
    if leb 5 (recent one_hour now (times_of service s.hourly_fixes))
    then create_check_at service_health_score false warning
    else create_check service_health_score true

-- The readings of the clock in one `validate`, in the order in which they are taken.
pub record Readings : Type 0 where
  pub cleanup : ℕ
  pub hourly : ℕ
  pub daily : ℕ
  pub cooling : ℕ
  pub health : ℕ

unfoldable pub checks_of : Settings → Readings → String → Tracker → List Check
unfolding check_hourly_limit check_daily_limit check_concurrent_limit check_cooling_period
    check_service_health_score
checks_of c r service s =
    check_hourly_limit c r.hourly service s
    ∷ check_daily_limit c r.daily s
    ∷ check_concurrent_limit c s
    ∷ check_cooling_period r.cooling service s
    ∷ check_service_health_score r.health service s
    ∷ []

unfoldable pub validate : Settings → Readings → String → Tracker → Tracker × ValidationResult
validate c r service s =
    let s' = cleanup_old_entries r.cleanup s in
    let checks = checks_of c r service s' in
    (s', record { passed = errors_passed checks; checks = checks; warned = false })
