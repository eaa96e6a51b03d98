-- ===== src/Limits/Runs.antt =====
-- app/domain/validators/blast_radius.py, used as app/services/remediator.py uses it: a fix starts
-- right after its `validate` has passed, and ends later. No other task runs between the two calls,
-- since neither awaits anything.
use devflowfix.Base.{ℕ, ◌+◌, ◌-◌, ◌≤◌, ◌<◌, ◌≡◌, Bool, true, false, List, [], ◌∷◌, String}
use devflowfix.Limits.{
  Tracker, Settings, Readings, no_fixes, cleanup_old_entries, validate, record_execution_start,
  record_execution_end,
}
use devflowfix.Limits.Verdict.{InOrder}
use devflowfix.Limits.Windows.{Start}

pub record World : Type 0 where
  pub now : ℕ
  pub tracker : Tracker
  pub log : List Start
  pub running : ℕ

unfoldable pub fresh : ℕ → World
fresh now = record { now = now; tracker = no_fixes; log = []; running = 0 }

-- The tracker behind a `validate`, and behind a fix that starts.
abbrev pub checked : Settings → Readings → String → World → Tracker
checked c r service w = (validate c r service w.tracker).0

pub data Step (c : Settings) : World → World → Type 0 where
  starts :
      (w : World) (r : Readings) (service : String) (at : ℕ)
      → w.now ≤ r.cleanup
      → InOrder r
      → r.health ≤ at
      → (validate c r service w.tracker).1.passed ≡ true
      → Step c w (record {
        now = at;
        tracker = record_execution_start at service (checked c r service w);
        log = record { service = service; at = at } ∷ w.log;
        running = w.running + 1;
      })
  refused :
      (w : World) (r : Readings) (service : String)
      → w.now ≤ r.cleanup
      → InOrder r
      → (validate c r service w.tracker).1.passed ≡ false
      → Step c w (record w { now = r.health; tracker = checked c r service w })
  ends :
      (w : World) (at : ℕ) (service : String) (success : Bool)
      → w.now ≤ at
      → 0 < w.running
      → Step c w (record w {
        now = at;
        tracker = record_execution_end at service success w.tracker;
        running = w.running - 1;
      })
  inspected :
      (w : World) (at : ℕ)
      → w.now ≤ at
      → Step c w (record w { now = at; tracker = cleanup_old_entries at w.tracker })

pub data Reach (c : Settings) (w : World) : World → Type 0 where
  here : Reach c w w
  next : {v u : World} → Reach c w v → Step c v u → Reach c w u
