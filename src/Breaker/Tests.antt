-- ===== src/Breaker/Tests.antt =====
-- Concrete breakers for app/utils/circuit_breaker.py.
use devflowfix.Base.{ℕ, refl, some, [], ◌∷◌, arith}
use devflowfix.Breaker.{Config, Stats, Outcome, returned, failed, open_, new, enter, leave}
use devflowfix.Breaker.Invariant.{
  Shared, admit, finish, Reach, here, next, fresh, IsSound, Reach-IsSound,
}
use devflowfix.Breaker.Traces.{Call, run}
use devflowfix.Breaker.Recovery.{IsReset, run-recovers}

abbrev tight : Config
tight = record { failure_threshold = 2; success_threshold = 2; timeout = 60 }

abbrev at : ℕ → Outcome ℕ → Call ℕ
at t o = record { checked = t; probed = t; ended = t; changed = t; outcome = o }

abbrev one_in : Shared
one_in = record { stats = (enter tight 5 5 (new 0)).0; in_flight = 1 }

abbrev one_out : Shared
one_out = record { stats = leave {A = ℕ} tight 7 7 failed one_in.stats; in_flight = 0 }

one_out_reached : Reach ℕ tight (fresh 0) one_out
unfolding fresh new enter
one_out_reached =
    next {t = one_in} (next here (admit (fresh 0) 5 5 refl))
      (finish one_in failed 7 7 (omega arith))

Reach-IsSound_example : IsSound tight one_out
Reach-IsSound_example = Reach-IsSound (omega arith) (omega arith) 0 one_out one_out_reached

abbrev tripped : Stats
tripped = record {
  state = open_;
  failure_count = 2;
  success_count = 0;
  last_failure_time = some 9;
  last_state_change = 9;
  total_requests = 4;
  total_failures = 2;
  total_successes = 2;
}

abbrev bad : Outcome ℕ
bad = failed

run-recovers_example : IsReset (run tight (at 70 (returned 1) ∷ at 71 (returned 2) ∷ []) tripped)
run-recovers_example =
    run-recovers tight (at 70 (returned 1)) (at 71 (returned 2) ∷ []) tripped 9 refl refl
      (omega arith) ((1, refl), ((2, refl), tt)) refl
