-- ===== src/Limits/Cleanup.antt =====
-- app/domain/validators/blast_radius.py, `_cleanup_old_entries`: what it drops no later check sees.
use devflowfix.Base.{
  ℕ, ◌+◌, ◌≤◌, ◌≡◌, refl, true, none, some, List, [], ◌∷◌, String, Dict, lookup, IsUnique, eq_iff,
  keep, is_empty, arith,
}
use devflowfix.Limits.{
  recent, younger, times_of, one_hour, one_day, cleanup_hourly, cleanup_failures,
}

pub recent-keep :
    (age now later : ℕ) (ts : List ℕ)
    → now ≤ later
    → recent age later (keep (younger age now) ts) ≡ recent age later ts
unfolding recent keep
recent-keep age now later [] h = refl
recent-keep age now later (t ∷ ts) h = ground (arith, recent-keep age now later ts h)

lookup-cleanup_none :
    (now : ℕ) (k : String) (d : Dict (List ℕ))
    → lookup k d ≡ none
    → lookup k (cleanup_hourly now d) ≡ none
unfolding lookup cleanup_hourly
lookup-cleanup_none now k [] h = refl
lookup-cleanup_none now k ((j, ts) ∷ d) h = ground (arith, eq_iff j k, lookup-cleanup_none now k d)

pub cleanup_hourly-IsUnique :
    (now : ℕ) (d : Dict (List ℕ)) → IsUnique d → IsUnique (cleanup_hourly now d)
unfolding cleanup_hourly
cleanup_hourly-IsUnique now [] u = tt
cleanup_hourly-IsUnique now ((j, ts) ∷ d) (a, u) =
    ground (arith, lookup-cleanup_none now j d a, cleanup_hourly-IsUnique now d u)

empty_recent :
    (age now later : ℕ) (ts : List ℕ)
    → now ≤ later
    → is_empty (keep (younger age now) ts) ≡ true
    → recent age later ts ≡ 0
unfolding recent keep
empty_recent age now later [] h e = refl
empty_recent age now later (t ∷ ts) h e = ground (arith, empty_recent age now later ts h)

recent-nil : (age later : ℕ) → recent age later [] ≡ 0
unfolding recent keep
recent-nil age later = refl

-- The count of one service's recent fixes is the same before and after a cleanup.
pub recent-cleanup_hourly :
    (now later : ℕ) (k : String) (d : Dict (List ℕ))
    → IsUnique d
    → now ≤ later
    → recent one_hour later (times_of k (cleanup_hourly now d))
      ≡ recent one_hour later (times_of k d)
unfolding lookup cleanup_hourly
recent-cleanup_hourly now later k [] u h = refl
recent-cleanup_hourly now later k ((j, ts) ∷ d) (a, u) h = ground (
  arith,
  eq_iff j k,
  recent-keep one_hour now later ts h,
  empty_recent one_hour now later ts h,
  lookup-cleanup_none now k d,
  recent-nil one_hour later,
  recent-cleanup_hourly now later k d u h,
)

-- A failure of the last day survives a cleanup.
pub lookup-cleanup_failures :
    (now last : ℕ) (k : String) (d : Dict ℕ)
    → lookup k d ≡ some last
    → now ≤ last + one_day
    → lookup k (cleanup_failures now d) ≡ some last
unfolding lookup cleanup_failures
lookup-cleanup_failures now last k [] e h = cc
lookup-cleanup_failures now last k ((j, t) ∷ d) e h =
    ground (arith, lookup-cleanup_failures now last k d)
