-- ===== src/Limits/Mirror.antt =====
-- app/domain/validators/blast_radius.py: every operation keeps the pruned lists in step with the whole
-- history.
use devflowfix.Base.{
  ℕ, ◌≤◌, ◌≡◌, refl, Bool, true, false, List, [], ◌∷◌, ◌++◌, ◌∙◌, String, IsUnique, Dict, lookup,
  keep, eq_iff, insert-IsUnique, if◌then◌else◌, arith,
}
use devflowfix.Limits.{
  Tracker, recent, times_of, one_hour, one_day, no_fixes, cleanup_old_entries,
  record_execution_start, record_execution_end,
}
use devflowfix.Limits.Cleanup.{recent-keep, recent-cleanup_hourly, cleanup_hourly-IsUnique}
use devflowfix.Limits.Verdict.{HasUniqueKeys, cleanup_failures-IsUnique}
use devflowfix.Limits.Windows.{Start, since_of, since_all, times_of-insert, recent-append}

-- The pruned lists answer every later question as the whole history does.
pub record Mirrors (now : ℕ) (s : Tracker) (log : List Start) : Type 0 where
  pub keys : HasUniqueKeys s
  pub hour :
      (t : ℕ) (service : String)
      → now ≤ t
      → recent one_hour t (times_of service s.hourly_fixes) ≡ since_of one_hour t service log
  pub day : (t : ℕ) → now ≤ t → recent one_day t s.daily_fixes ≡ since_all one_day t log

pub Mirrors-fresh : (now : ℕ) → Mirrors now no_fixes []
unfolding no_fixes recent keep lookup since_of since_all
Mirrors-fresh now = record {
  keys = record { hourly_unique = tt; failures_unique = tt };
  hour = λ t service l. refl;
  day = λ t l. refl;
}

pub Mirrors-cleanup :
    (now at : ℕ) (s : Tracker) (log : List Start)
    → now ≤ at
    → Mirrors now s log
    → Mirrors at (cleanup_old_entries at s) log
unfolding cleanup_old_entries
Mirrors-cleanup now at s log h m = record {
  keys = record {
    hourly_unique = cleanup_hourly-IsUnique at s.hourly_fixes m.keys.hourly_unique;
    failures_unique = cleanup_failures-IsUnique at s.last_failure_times m.keys.failures_unique;
  };
  hour = λ t service l.
      recent-cleanup_hourly at t service s.hourly_fixes m.keys.hourly_unique l
      ∙ m.hour t service (omega arith);
  day = λ t l. recent-keep one_day at t s.daily_fixes l ∙ m.day t (omega arith);
}

pub Mirrors-later :
    (now at : ℕ) (s : Tracker) (log : List Start) → now ≤ at → Mirrors now s log → Mirrors at s log
Mirrors-later now at s log h m = record {
  keys = m.keys;
  hour = λ t service l. m.hour t service (omega arith);
  day = λ t l. m.day t (omega arith);
}

pub Mirrors-start :
    (now at : ℕ) (service : String) (s : Tracker) (log : List Start)
    → now ≤ at
    → Mirrors now s log
    → Mirrors at (record_execution_start at service s) (record { service = service; at = at } ∷ log)
unfolding record_execution_start since_of since_all
Mirrors-start now at service s log h m = record {
  keys = record {
    hourly_unique = insert-IsUnique service _ s.hourly_fixes m.keys.hourly_unique;
    failures_unique = m.keys.failures_unique;
  };
  hour = λ t other l. ground (
    arith,
    eq_iff service other,
    times_of-insert service other (times_of service s.hourly_fixes ++ at ∷ []) s.hourly_fixes,
    recent-append one_hour t at (times_of service s.hourly_fixes),
    m.hour t other (omega arith),
  );
  day = λ t l. recent-append one_day t at s.daily_fixes ∙ omega (arith, m.day t (omega arith));
}

either-IsUnique :
    (x y : Dict ℕ) (b : Bool) → IsUnique x → IsUnique y → IsUnique (if b then x else y)
either-IsUnique x y true u v = u
either-IsUnique x y false u v = v

pub Mirrors-end :
    (now at : ℕ) (service : String) (success : Bool) (s : Tracker) (log : List Start)
    → now ≤ at
    → Mirrors now s log
    → Mirrors at (record_execution_end at service success s) log
unfolding record_execution_end
Mirrors-end now at service success s log h m = record {
  keys = record {
    hourly_unique = m.keys.hourly_unique;
    failures_unique =
        either-IsUnique _ _ success m.keys.failures_unique
          (insert-IsUnique service at s.last_failure_times m.keys.failures_unique);
  };
  hour = λ t other l. m.hour t other (omega arith);
  day = λ t l. m.day t (omega arith);
}
