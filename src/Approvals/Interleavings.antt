-- ===== src/Approvals/Interleavings.antt =====
-- app/adapters/external/slack/approvals.py, seen by the callbacks that share one adapter: any number
-- of them may wait for the update of their message while others are checked, answered and cancelled.
use devflowfix.Base.{
  is_some, ℕ, ◌+◌, ◌*◌, ◌≤◌, ◌≡◌, Bool, ◌&&◌, Option, List, [], ◌∷◌, ◌++◌, String, lookup, insert,
  lookup-insert, lookup-erase, str_eq, eq_iff, keep, length, if◌then◌else◌, arith,
}
use devflowfix.Core.Incident.{Incident}
use devflowfix.Core.Plan.{RemediationPlan}
use devflowfix.Approvals.{
  Approvals, response, Click, admitted, Pending, User, Run, request_approval, check_callback,
  finish_callback, runs_callback, cancel_approval, minute,
}

-- What the adapter keeps, the clicks that wait, and logs of the requests that were posted, of the
-- approving clicks that were admitted, and of the runs of the remediation callback.
pub record World : Type 0 where
  pub pending : Approvals
  pub waiting : List Click
  pub requested : List String
  pub approved : List String
  pub executed : List String

unfoldable pub idle : World
idle = record { pending = []; waiting = []; requested = []; approved = []; executed = [] }

abbrev pub note_if : Bool → String → List String → List String
note_if b id log = if b then id ∷ log else log

-- Whether the adapter was built with a remediation callback is `cb`.
pub data Step (cb : Bool) : World → World → Type 0 where
  requests :
      (w : World) (now now' timeout_minutes : ℕ) (requestor : Option String) (id : String)
      (i : Incident) (p : RemediationPlan) (ts : Option String)
      → Step cb w (record w {
        pending =
            (request_approval now now' timeout_minutes requestor id i p (response ts) w.pending).0;
        requested = id ∷ w.requested;
      })
  checks :
      (w : World) (now : ℕ) (actions : List String) (k : Click) (p : Pending)
      → check_callback now actions w.pending ≡ admitted k p
      → Step cb w
          (record w { waiting = k ∷ w.waiting; approved = note_if k.approved k.id w.approved })
  answers :
      (w : World) (now : ℕ) (run : Run) (u : User) (before after : List Click) (k : Click)
      → w.waiting ≡ before ++ k ∷ after
      → Step cb w (record w {
        pending = (finish_callback now cb run u k w.pending).0;
        waiting = before ++ after;
        executed = note_if (runs_callback cb k w.pending) k.id w.executed;
      })
  cancels :
      (w : World) (id : String)
      → Step cb w (record w { pending = (cancel_approval id w.pending).0 })

pub data Reach (cb : Bool) (w : World) : World → Type 0 where
  here : Reach cb w w
  next : {v u : World} → Reach cb w v → Step cb v u → Reach cb w u

-- How often an identifier stands in a log, and how many approving clicks of it wait.
unfoldable pub times : String → List String → ℕ
times id log = length (keep (str_eq id) log)

unfoldable pub waiting_for : String → List Click → ℕ
waiting_for id ks = length (keep (λ k. k.approved && str_eq id k.id) ks)

abbrev pub present : Bool → ℕ
present b = if b then 1 else 0

pub record IsGuarded (id : String) (w : World) : Type 0 where
  pub by_request :
      times id w.executed + present (is_some (lookup id w.pending)) ≤ times id w.requested
  pub by_click : times id w.executed + waiting_for id w.waiting ≤ times id w.approved

waiting_for-split :
    (id : String) (before after : List Click) (k : Click)
    → waiting_for id (before ++ k ∷ after)
      ≡ waiting_for id (before ++ after) + present (k.approved && str_eq id k.id)
unfolding waiting_for keep
waiting_for-split id [] after k = ground arith
waiting_for-split id (j ∷ before) after k = ground (arith, waiting_for-split id before after k)

insert-present :
    (id j : String) (p : Pending) (d : Approvals)
    → present (is_some (lookup id (insert j p d)))
      ≡ (if str_eq j id then 1 else present (is_some (lookup id d)))
insert-present id j p d = ground (arith, lookup-insert j id p d)

Step-IsGuarded :
    {cb : Bool} (id : String) {w v : World} → Step cb w v → IsGuarded id w → IsGuarded id v
unfolding request_approval finish_callback runs_callback cancel_approval times waiting_for keep
Step-IsGuarded {cb} id (requests w now now' m r j i p ts) g =
    let entry : Pending = record {
      incident = i;
      plan = p;
      message_ts = ts;
      requested_at = now';
      timeout_at = now + m * minute;
      requestor = r;
    } in
    ground (arith, insert-present id j entry w.pending, eq_iff id j, eq_iff j id)
Step-IsGuarded {cb} id (checks w now texts k p e) g = ground arith
Step-IsGuarded {cb} id (answers w now run u b a k e) g = ground (
  arith,
  e,
  lookup-erase k.id id w.pending,
  eq_iff id k.id,
  eq_iff k.id id,
  waiting_for-split id b a k,
)
Step-IsGuarded {cb} id (cancels w j) g =
    ground (arith, lookup-erase j id w.pending, eq_iff id j, eq_iff j id)

-- Over every interleaving of requests, clicks, updates and cancellations from an adapter without
-- pending approvals, and for every incident: the remediation callback was run at most as often as
-- approval was asked for the incident, less one while an approval is pending; and at most as often as
-- an approving click for it was admitted, less the ones that still wait.
pub Reach-IsGuarded : (cb : Bool) (id : String) (w : World) → Reach cb idle w → IsGuarded id w
unfolding idle times waiting_for keep lookup
Reach-IsGuarded cb id w here = ground arith
Reach-IsGuarded cb id w (next r st) = Step-IsGuarded id st (Reach-IsGuarded cb id _ r)
