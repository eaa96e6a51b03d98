-- ===== src/Limits/History.antt =====
-- app/domain/validators/blast_radius.py: the limits over every history of fixes.
use devflowfix.Base.{ℕ, ◌+◌, ◌-◌, ◌≤◌, ◌≡◌, refl, Bool, true, ◌∷◌, String, eq_iff, arith}
use devflowfix.Limits.{
  Settings, Readings, one_hour, one_day, no_fixes, cleanup_old_entries, validate,
  record_execution_start, record_execution_end,
}
use devflowfix.Limits.Verdict.{InOrder, Allows, validate_iff}
use devflowfix.Limits.Windows.{
  window_of, window_all, window_of-le-since_of, window_all-le-since_all,
}
use devflowfix.Limits.Runs.{
  World, fresh, checked, Step, starts, refused, ends, inspected, Reach, here, next,
}
use devflowfix.Limits.Mirror.{
  Mirrors, Mirrors-fresh, Mirrors-cleanup, Mirrors-later, Mirrors-start, Mirrors-end,
}

-- No span of an hour holds more starts of one service than allowed, no span of a day more starts than
-- allowed, and no more executions run than allowed.
pub record WithinLimits (c : Settings) (w : World) : Type 0 where
  pub hourly :
      (t : ℕ) (service : String) → window_of one_hour t service w.log ≤ c.max_fixes_per_hour
  pub daily : (t : ℕ) → window_all one_day t w.log ≤ c.max_fixes_per_day
  pub concurrent : w.running ≤ c.max_concurrent_remediations

pub record IsSound (c : Settings) (w : World) : Type 0 where
  pub mirrors : Mirrors w.now w.tracker w.log
  pub slots : w.tracker.concurrent_executions ≡ w.running
  pub limits : WithinLimits c w

module _ (c : Settings) where
  WithinLimits-start :
      (w : World) (r : Readings) (service : String) (at : ℕ)
      → w.now ≤ r.cleanup
      → InOrder r
      → r.health ≤ at
      → Allows c r service w.tracker
      → IsSound c w
      → (t : ℕ) (other : String)
      → let log = record { service = service; at = at } ∷ w.log in
        (window_of one_hour t other log ≤ c.max_fixes_per_hour)
        × (window_all one_day t log ≤ c.max_fixes_per_day)
  unfolding window_of window_all
  WithinLimits-start w r service at h o l a v t other = ground (
    arith,
    eq_iff service other,
    v.limits.hourly t other,
    v.limits.daily t,
    window_of-le-since_of one_hour r.hourly t service w.log,
    window_all-le-since_all one_day r.daily t w.log,
    v.mirrors.hour r.hourly service (omega arith),
    v.mirrors.day r.daily (omega arith),
  )

  starts-IsSound :
      (w : World) (r : Readings) (service : String) (at : ℕ)
      → w.now ≤ r.cleanup
      → InOrder r
      → r.health ≤ at
      → (validate c r service w.tracker).1.passed ≡ true
      → IsSound c w
      → IsSound c (record {
        now = at;
        tracker = record_execution_start at service (checked c r service w);
        log = record { service = service; at = at } ∷ w.log;
        running = w.running + 1;
      })
  unfolding validate record_execution_start cleanup_old_entries
  starts-IsSound w r service at h o l p v =
      let a = (validate_iff c r service w.tracker v.mirrors.keys o).0 p in
      let kept = WithinLimits-start w r service at h o l a v in
      let m = Mirrors-cleanup w.now r.cleanup w.tracker w.log h v.mirrors in
      record {
        mirrors = Mirrors-start r.cleanup at service _ w.log (omega arith) m;
        slots = omega (arith, v.slots);
        limits = record {
          hourly = λ t other. (kept t other).0;
          daily = λ t. (kept t service).1;
          concurrent = omega (arith, v.slots, a.slot_free);
        };
      }

  refused-IsSound :
      (w : World) (r : Readings) (service : String)
      → w.now ≤ r.cleanup
      → InOrder r
      → IsSound c w
      → IsSound c (record w { now = r.health; tracker = checked c r service w })
  unfolding validate cleanup_old_entries
  refused-IsSound w r service h o v = record {
    mirrors =
        Mirrors-later r.cleanup r.health _ w.log (omega arith)
          (Mirrors-cleanup w.now r.cleanup w.tracker w.log h v.mirrors);
    slots = v.slots;
    limits = record {
      hourly = v.limits.hourly;
      daily = v.limits.daily;
      concurrent = v.limits.concurrent;
    };
  }

  ends-IsSound :
      (w : World) (at : ℕ) (service : String) (success : Bool)
      → w.now ≤ at
      → IsSound c w
      → IsSound c (record w {
        now = at;
        tracker = record_execution_end at service success w.tracker;
        running = w.running - 1;
      })
  unfolding record_execution_end
  ends-IsSound w at service success h v = record {
    mirrors = Mirrors-end w.now at service success w.tracker w.log h v.mirrors;
    slots = omega (arith, v.slots);
    limits = record {
      hourly = v.limits.hourly;
      daily = v.limits.daily;
      concurrent = omega (arith, v.limits.concurrent);
    };
  }

  inspected-IsSound :
      (w : World) (at : ℕ)
      → w.now ≤ at
      → IsSound c w
      → IsSound c (record w { now = at; tracker = cleanup_old_entries at w.tracker })
  unfolding cleanup_old_entries
  inspected-IsSound w at h v = record {
    mirrors = Mirrors-cleanup w.now at w.tracker w.log h v.mirrors;
    slots = v.slots;
    limits = record {
      hourly = v.limits.hourly;
      daily = v.limits.daily;
      concurrent = v.limits.concurrent;
    };
  }

  Step-IsSound : {w u : World} → Step c w u → IsSound c w → IsSound c u
  Step-IsSound (starts w r service at h o l p) v = starts-IsSound w r service at h o l p v
  Step-IsSound (refused w r service h o p) v = refused-IsSound w r service h o v
  Step-IsSound (ends w at service success h n) v = ends-IsSound w at service success h v
  Step-IsSound (inspected w at h) v = inspected-IsSound w at h v

  fresh-IsSound : (now : ℕ) → IsSound c (fresh now)
  unfolding fresh no_fixes window_of window_all
  fresh-IsSound now = record {
    mirrors = Mirrors-fresh now;
    slots = refl;
    limits = record {
      hourly = λ t service. omega arith;
      daily = λ t. omega arith;
      concurrent = omega arith;
    };
  }

  Reach-IsSound : (now : ℕ) (w : World) → Reach c (fresh now) w → IsSound c w
  Reach-IsSound now w here = fresh-IsSound now
  Reach-IsSound now w (next r st) = Step-IsSound st (Reach-IsSound now _ r)

  -- After any sequence of fixes that start right after a passed `validate`, refused fixes, ends of
  -- fixes and cleanups, from a new validator and at times that never run backwards: no hour, ending at
  -- any time, holds more starts of one service than `max_fixes_per_hour`, no day more starts than
  -- `max_fixes_per_day`, and no more executions run than `max_concurrent_remediations`.
  pub Reach-WithinLimits : (now : ℕ) (w : World) → Reach c (fresh now) w → WithinLimits c w
  Reach-WithinLimits now w r = (Reach-IsSound now w r).limits

  -- Dropping old entries loses nothing: after any such sequence, the pruned lists of the validator
  -- count, at the last time or any later one, as many fixes of a service in the last hour and of all
  -- services in the last day as the whole history holds.
  pub Reach-Mirrors : (now : ℕ) (w : World) → Reach c (fresh now) w → Mirrors w.now w.tracker w.log
  Reach-Mirrors now w r = (Reach-IsSound now w r).mirrors
