-- ===== src/Breaker/Invariant.antt =====
-- app/utils/circuit_breaker.py, seen by the asynchronous calls that share one breaker: any number of
-- them may be awaiting their function while others enter and leave.
use devflowfix.Base.{ℕ, ◌+◌, ◌-◌, ◌≤◌, ◌<◌, ◌≡◌, ◌≢◌, true, false, none, arith}
use devflowfix.Breaker.{
  closed, open_, half_open, Config, Stats, Outcome, returned, failed, not_found, unexpected, new,
  enter, leave, reset,
}

pub record Shared : Type 0 where
  pub stats : Stats
  pub in_flight : ℕ

-- One step of one call, at any clock readings, or a manual reset.
pub data Step (A : Type 0) (c : Config) : Shared → Shared → Type 0 where
  admit :
      (s : Shared) (now now' : ℕ)
      → (enter c now now' s.stats).1 ≡ true
      → Step A c s (record { stats = (enter c now now' s.stats).0; in_flight = s.in_flight + 1 })
  refuse :
      (s : Shared) (now now' : ℕ)
      → (enter c now now' s.stats).1 ≡ false
      → Step A c s (record s { stats = (enter c now now' s.stats).0 })
  finish :
      (s : Shared) (o : Outcome A) (now now' : ℕ)
      → 0 < s.in_flight
      → Step A c s (record { stats = leave c now now' o s.stats; in_flight = s.in_flight - 1 })
  clear : (s : Shared) → Step A c s (record s { stats = reset s.stats })

pub data Reach (A : Type 0) (c : Config) (s : Shared) : Shared → Type 0 where
  here : Reach A c s s
  next : {t u : Shared} → Reach A c s t → Step A c t u → Reach A c s u

unfoldable pub fresh : ℕ → Shared
fresh now = record { stats = new now; in_flight = 0 }

pub record IsSound (c : Config) (s : Shared) : Type 0 where
  pub closed_below : s.stats.state ≡ closed → s.stats.failure_count < c.failure_threshold
  pub half_open_below : s.stats.state ≡ half_open → s.stats.success_count < c.success_threshold
  pub open_failed : s.stats.state ≡ open_ → s.stats.last_failure_time ≢ none
  pub accounted :
      s.stats.total_failures + s.stats.total_successes + s.in_flight ≤ s.stats.total_requests

module _ {c : Config} (f : 0 < c.failure_threshold) (g : 0 < c.success_threshold) where
  fresh-IsSound : (now : ℕ) → IsSound c (fresh now)
  unfolding fresh new
  fresh-IsSound now = ground arith

  leave-IsSound :
      {A : Type 0} (o : Outcome A) (s : Shared) (now now' : ℕ)
      → 0 < s.in_flight
      → IsSound c s
      → IsSound c (record { stats = leave c now now' o s.stats; in_flight = s.in_flight - 1 })
  unfolding leave
  leave-IsSound (returned a) s now now' h v = ground arith
  leave-IsSound failed s now now' h v = ground arith
  leave-IsSound not_found s now now' h v = ground arith
  leave-IsSound unexpected s now now' h v = ground arith

  Step-IsSound : {A : Type 0} {s t : Shared} → Step A c s t → IsSound c s → IsSound c t
  unfolding enter reset
  Step-IsSound (admit s now now' e) v = ground arith
  Step-IsSound (refuse s now now' e) v = ground arith
  Step-IsSound (finish s o now now' h) v = leave-IsSound o s now now' h v
  Step-IsSound (clear s) v = ground arith

  -- Let both thresholds be positive. After any interleaving of calls and resets from a new breaker:
  -- while it is closed it has counted fewer failures than its threshold, while it is half open fewer
  -- successes than its threshold, while it is open it knows the time of a failure, and the failures,
  -- the successes and the calls still in flight are together at most the requests.
  pub Reach-IsSound : {A : Type 0} (now : ℕ) (s : Shared) → Reach A c (fresh now) s → IsSound c s
  Reach-IsSound now s here = fresh-IsSound now
  Reach-IsSound now s (next r st) = Step-IsSound st (Reach-IsSound now _ r)
