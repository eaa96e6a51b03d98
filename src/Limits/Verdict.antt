-- ===== src/Limits/Verdict.antt =====
-- app/domain/validators/blast_radius.py, `validate`: which states pass.
use devflowfix.Base.{
  ℕ, ◌+◌, ◌≤◌, ◌<◌, ◌≡◌, ◌↔◌, refl, Bool, true, Option, none, some, [], ◌∷◌, String, Dict, lookup,
  IsUnique, eq_iff, ltb, leb, ◌&&◌, arith, ◌∙◌,
}
use devflowfix.Validation.{is_tolerable, errors_passed, errors_passed-cons, errors_passed-nil}
use devflowfix.Limits.{
  Tracker, Settings, Readings, recent, times_of, one_hour, one_day, fifteen_minutes,
  cleanup_failures, cleanup_old_entries, checks_of, validate, check_hourly_limit, check_daily_limit,
  check_concurrent_limit, check_cooling_period, check_service_health_score,
}
use devflowfix.Limits.Cleanup.{recent-keep, recent-cleanup_hourly}

-- The readings of the clock follow one another.
pub record InOrder (r : Readings) : Type 0 where
  pub first : r.cleanup ≤ r.hourly
  pub second : r.hourly ≤ r.daily
  pub third : r.daily ≤ r.cooling
  pub fourth : r.cooling ≤ r.health

-- What a state must satisfy for a fix of the service to be let through: fewer fixes of the service
-- in the last hour, and of all services in the last day, than allowed, fewer running executions than
-- allowed, and no failure of the service in the last fifteen minutes.
pub record Allows (c : Settings) (r : Readings) (service : String) (s : Tracker) : Type 0 where
  pub hour_free : recent one_hour r.hourly (times_of service s.hourly_fixes) < c.max_fixes_per_hour
  pub day_free : recent one_day r.daily s.daily_fixes < c.max_fixes_per_day
  pub slot_free : s.concurrent_executions < c.max_concurrent_remediations
  pub cool :
      (last : ℕ)
      → lookup service s.last_failure_times ≡ some last
      → last + fifteen_minutes ≤ r.cooling

and-true : (b : Bool) → (b && true) ≡ b
and-true b = ground arith

abbrev pub is_cool : ℕ → Option ℕ → Bool
is_cool now none = true
is_cool now (some last) = leb (last + fifteen_minutes) now

is_cool_iff :
    (now : ℕ) (o : Option ℕ)
    → ((is_cool now o ≡ true) ↔ ((last : ℕ) → o ≡ some last → last + fifteen_minutes ≤ now))
is_cool_iff now none = (λ _ last e. cc, λ _. refl)
is_cool_iff now (some last) = (λ h l e. ground arith, λ f. ground (arith, f last refl))

hourly_tolerable :
    (c : Settings) (now : ℕ) (service : String) (s : Tracker)
    → is_tolerable (check_hourly_limit c now service s)
      ≡ ltb (recent one_hour now (times_of service s.hourly_fixes)) c.max_fixes_per_hour
unfolding check_hourly_limit
hourly_tolerable c now service s = ground arith

daily_tolerable :
    (c : Settings) (now : ℕ) (s : Tracker)
    → is_tolerable (check_daily_limit c now s)
      ≡ ltb (recent one_day now s.daily_fixes) c.max_fixes_per_day
unfolding check_daily_limit
daily_tolerable c now s = ground arith

concurrent_tolerable :
    (c : Settings) (s : Tracker)
    → is_tolerable (check_concurrent_limit c s)
      ≡ ltb s.concurrent_executions c.max_concurrent_remediations
unfolding check_concurrent_limit
concurrent_tolerable c s = ground arith

cooling_tolerable :
    (now : ℕ) (service : String) (s : Tracker)
    → is_tolerable (check_cooling_period now service s)
      ≡ is_cool now (lookup service s.last_failure_times)
unfolding check_cooling_period
cooling_tolerable now service s = ground arith

health_tolerable :
    (now : ℕ) (service : String) (s : Tracker)
    → is_tolerable (check_service_health_score now service s) ≡ true
unfolding check_service_health_score
health_tolerable now service s = ground arith

-- The verdict on a state as one Boolean.
pub checks_passed :
    (c : Settings) (r : Readings) (service : String) (s : Tracker)
    → errors_passed (checks_of c r service s) ≡ (
        ltb (recent one_hour r.hourly (times_of service s.hourly_fixes)) c.max_fixes_per_hour
        && (ltb (recent one_day r.daily s.daily_fixes) c.max_fixes_per_day
            && (ltb s.concurrent_executions c.max_concurrent_remediations
                && is_cool r.cooling (lookup service s.last_failure_times))))
unfolding checks_of
checks_passed c r service s = simp (
  errors_passed-cons, hourly_tolerable, daily_tolerable, concurrent_tolerable, cooling_tolerable,
  health_tolerable, errors_passed-nil, and-true,
)

lookup-cleanup_none :
    (now : ℕ) (k : String) (d : Dict ℕ)
    → lookup k d ≡ none
    → lookup k (cleanup_failures now d) ≡ none
unfolding lookup cleanup_failures
lookup-cleanup_none now k [] h = refl
lookup-cleanup_none now k ((j, t) ∷ d) h = ground (arith, lookup-cleanup_none now k d)

pub cleanup_failures-IsUnique :
    (now : ℕ) (d : Dict ℕ) → IsUnique d → IsUnique (cleanup_failures now d)
unfolding cleanup_failures
cleanup_failures-IsUnique now [] u = tt
cleanup_failures-IsUnique now ((j, t) ∷ d) (a, u) =
    ground (arith, lookup-cleanup_none now j d a, cleanup_failures-IsUnique now d u)

is_cool-cleanup :
    (now later : ℕ) (k : String) (d : Dict ℕ)
    → IsUnique d
    → now ≤ later
    → is_cool later (lookup k (cleanup_failures now d)) ≡ is_cool later (lookup k d)
unfolding lookup cleanup_failures
is_cool-cleanup now later k [] u h = refl
is_cool-cleanup now later k ((j, t) ∷ d) (a, u) h =
    ground (arith, eq_iff j k, lookup-cleanup_none now k d, is_cool-cleanup now later k d u h)

pub record HasUniqueKeys (s : Tracker) : Type 0 where
  pub hourly_unique : IsUnique s.hourly_fixes
  pub failures_unique : IsUnique s.last_failure_times

validate_verdict :
    (c : Settings) (r : Readings) (service : String) (s : Tracker)
    → HasUniqueKeys s
    → InOrder r
    → (validate c r service s).1.passed ≡ (
        ltb (recent one_hour r.hourly (times_of service s.hourly_fixes)) c.max_fixes_per_hour
        && (ltb (recent one_day r.daily s.daily_fixes) c.max_fixes_per_day
            && (ltb s.concurrent_executions c.max_concurrent_remediations
                && is_cool r.cooling (lookup service s.last_failure_times))))
unfolding validate cleanup_old_entries
validate_verdict c r service s v o =
    checks_passed c r service (cleanup_old_entries r.cleanup s)
    ∙ cc (
      recent-cleanup_hourly r.cleanup r.hourly service s.hourly_fixes v.hourly_unique (omega arith),
      recent-keep one_day r.cleanup r.daily s.daily_fixes (omega arith),
      is_cool-cleanup r.cleanup r.cooling service s.last_failure_times v.failures_unique
          (omega arith),
    )

-- With clock readings that follow one another, `validate` passes exactly where the service had fewer
-- fixes in the last hour, and all services together in the last day, than the settings allow, fewer
-- executions run than they allow, and the service did not fail in the last fifteen minutes, all this
-- of the state before the cleanup. The check of the service's health never decides.
pub validate_iff :
    (c : Settings) (r : Readings) (service : String) (s : Tracker)
    → HasUniqueKeys s
    → InOrder r
    → ((validate c r service s).1.passed ≡ true) ↔ Allows c r service s
validate_iff c r service s v o =
    let cool = is_cool_iff r.cooling (lookup service s.last_failure_times) in
    let e = validate_verdict c r service s v o in
    (
      λ h. record {
        hour_free = ground (arith, e);
        day_free = ground (arith, e);
        slot_free = ground (arith, e);
        cool = cool.0 (ground (arith, e));
      },
      λ h. let k = cool.1 h.cool in ground (arith, e, h.hour_free, h.day_free, h.slot_free),
    )
