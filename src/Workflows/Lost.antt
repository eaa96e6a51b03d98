-- ===== src/Workflows/Lost.antt =====
-- app/services/workflow/workflow_tracker.py: what becomes of runs that failed.
use devflowfix.Base.{
  ℕ, ◌≡◌, refl, ◌∙◌, Bool, true, false, not, ◌&&◌, Option, none, some, is_some, List, [], ◌∷◌, ◌++◌,
  String, find, change_first, find-fails, truthy, str_eq, Option-cases, Bool-cases, inl, inr,
  if◌then◌else◌, arith,
}
use devflowfix.Workflows.{
  RepositoryConnection, TrackedRun, Session, RunEvent, Fresh, is_failing, or_text, touch, is_run,
  is_for_connection, updated_run, new_run, commit_texts, incident_of, create_incident_for_failure,
  is_taken, time_of, update_existing, finish_time, add_new, process_workflow_run_event, committed,
  event_found, process_oauth_connected_workflow_event,
}
use devflowfix.Workflows.Unmarked.{
  is_marked, IsUnmarked, added-IsUnmarked, changed-IsUnmarked, new-unmarked, update-unmarked,
}

-- One delivered event, for a user.
pub record Delivery : Type 0 where
  pub fresh : Fresh
  pub user : String
  pub event_type : String
  pub full_name : Option String
  pub event : RunEvent

-- The outcome of an event leaves the incidents and keeps the runs unmarked.
abbrev IsHarmless : Session → Session → Type 0
IsHarmless s s' = (s'.incidents ≡ s.incidents) × IsUnmarked s'.runs

choose-IsHarmless :
    (b : Bool) (s : Session) (x y : Session × Bool)
    → IsHarmless s x.0
    → IsHarmless s y.0
    → IsHarmless s (if b then x else y).0
choose-IsHarmless true s x y h k = h
choose-IsHarmless false s x y h k = k

-- After the flush of a row `r` in the session `s`, an incident is `wanted` where the row has failed.
flushed-IsHarmless :
    (f : Fresh) (c : RepositoryConnection) (r : TrackedRun) (taken wanted : Bool) (s t : Session)
    → s.incidents ≡ t.incidents
    → ((wanted && is_some r.commit_sha) ≡ false → IsUnmarked s.runs)
    → IsHarmless t t
    → IsHarmless t
        (committed t (
          if not taken
          then none
          else if wanted
          then some (create_incident_for_failure f c r s)
          else some s)).0
unfolding create_incident_for_failure incident_of
flushed-IsHarmless f c r false wanted s t k w d = d
flushed-IsHarmless f c r true wanted s t k w d =
    elim (Bool-cases (wanted && is_some r.commit_sha)) [
      | inl h ↦
          let a : wanted ≡ true = ground (arith, h) in
          let b : is_some r.commit_sha ≡ true = ground (arith, h) in rw (a, b) d
      | inr h ↦ elim (Bool-cases wanted) [
        | inl a ↦
            let b : is_some r.commit_sha ≡ false = ground (arith, h, a) in
            elim (Bool-cases s.failed) [ inl g ↦ rw (a, b, g) d | inr g ↦ rw (a, b, g) (k, w h) ]
        | inr a ↦ elim (Bool-cases s.failed) [ inl g ↦ rw (a, g) d | inr g ↦ rw (a, g) (k, w h) ]
      ]
    ]

module _ (from_iso : String → Option ℕ) (accepts : TrackedRun → Bool) where
  add_new-IsHarmless :
      (f : Fresh) (c : RepositoryConnection) (e : RunEvent) (started finished : Option (Option ℕ))
      (texts : Option (Option String × Option String)) (s t : Session)
      → find (is_run c.id e.run_id) s.runs ≡ none
      → s.incidents ≡ t.incidents
      → IsUnmarked s.runs
      → IsHarmless t t
      → IsHarmless t (committed t (add_new from_iso accepts f c e started finished texts s)).0
  add_new-IsHarmless f c e none finished texts s t n k w d = d
  add_new-IsHarmless f c e (some started) none texts s t n k w d = d
  add_new-IsHarmless f c e (some started) (some finished) none s t n k w d = d
  add_new-IsHarmless f c e (some started) (some finished) (some texts) s t n k w d =
      let new = new_run f c e started finished texts in
      flushed-IsHarmless f c new (is_taken from_iso accepts new) (is_failing e.conclusion)
        (record s { runs = s.runs ++ new ∷ [] }) t k
        (λ h.
          added-IsUnmarked f c e started finished texts s.runs n
            (new-unmarked f c e started finished texts h) w)
        d

  update_existing-IsHarmless :
      (f : Fresh) (c : RepositoryConnection) (e : RunEvent) (r : TrackedRun)
      (started finished : Option (Option ℕ)) (s t : Session)
      → find (is_run c.id e.run_id) s.runs ≡ some r
      → s.incidents ≡ t.incidents
      → IsUnmarked s.runs
      → IsHarmless t t
      → IsHarmless t (committed t (update_existing from_iso accepts f c e r started finished s)).0
  update_existing-IsHarmless f c e r none finished s t n k w d = d
  update_existing-IsHarmless f c e r (some started) none s t n k w d = d
  update_existing-IsHarmless f c e r (some started) (some finished) s t n k w d =
      let p = is_run c.id e.run_id in
      let u = updated_run f e started finished in
      let clean = find-fails p is_marked s.runs r n w.unmarked in
      flushed-IsHarmless f c (u r) (is_taken from_iso accepts (u r))
        (is_failing e.conclusion && not (truthy r.incident_id))
        (record s { runs = change_first p u s.runs }) t k
        (λ h.
          changed-IsUnmarked f e started finished p s.runs r n
            (update-unmarked f e started finished r clean h) w)
        d

  process-IsHarmless :
      (f : Fresh) (c : RepositoryConnection) (e : RunEvent) (s t : Session)
      → s.incidents ≡ t.incidents
      → IsUnmarked s.runs
      → IsHarmless t t
      → IsHarmless t (committed t (process_workflow_run_event from_iso accepts f c e s)).0
  unfolding process_workflow_run_event
  process-IsHarmless f c e s t k w d = elim (Option-cases (find (is_run c.id e.run_id) s.runs)) [
    | inl n ↦ rw n (
        add_new-IsHarmless f c e (time_of from_iso accepts e.run_started_at)
          (finish_time from_iso accepts e) (commit_texts e.head_commit) s t n k w d)
    | inr (r, n) ↦ rw n (
        update_existing-IsHarmless f c e r (time_of from_iso accepts e.run_started_at)
          (time_of from_iso accepts e.updated_at) s t n k w d)
  ]

  unfoldable pub deliver : Delivery → Session → Session
  deliver v s =
      (process_oauth_connected_workflow_event from_iso accepts v.fresh v.user v.event_type
        v.full_name v.event s).0

  unfoldable pub deliver_all : List Delivery → Session → Session
  deliver_all [] s = s
  deliver_all (v ∷ vs) s = deliver_all vs (deliver v s)

  event_found-IsHarmless :
      (f : Fresh) (user name : String) (e : RunEvent) (o : Option RepositoryConnection)
      (s : Session)
      → IsUnmarked s.runs
      → IsHarmless s (event_found from_iso accepts f user name e o s).0
  event_found-IsHarmless f user name e none s w = (refl, w)
  event_found-IsHarmless f user name e (some c) s w =
      process-IsHarmless f c e
        (record s {
          connections = change_first (is_for_connection user name) (touch f.received) s.connections;
        })
        s refl w (refl, w)

  deliver-IsHarmless : (v : Delivery) (s : Session) → IsUnmarked s.runs → IsHarmless s (deliver v s)
  unfolding deliver process_oauth_connected_workflow_event
  deliver-IsHarmless v s w =
      let name = or_text v.full_name "" in
      let found = find (is_for_connection v.user name) s.connections in
      let h = event_found-IsHarmless v.fresh v.user name v.event found s w in
      let known =
        choose-IsHarmless (not (truthy v.full_name)) s (s, false)
          (event_found from_iso accepts v.fresh v.user name v.event found s) (refl, w) h in
      choose-IsHarmless (not (str_eq v.event_type "workflow_run")) s (s, false)
        (if not (truthy v.full_name)
          then (s, false)
          else event_found from_iso accepts v.fresh v.user name v.event found s)
        (refl, w) known

  -- No incident is ever made of a failed run, and no failed run whose commit is known is recorded.
  -- Over any sequence of events, of any users, repositories and contents, and whatever else the
  -- database asks of a row, from runs of which none has an incident, none of a known commit has
  -- failed and none is recorded twice, the incidents stay as they were, and the same holds of the
  -- runs.
  pub deliver_all-IsUnmarked :
      (vs : List Delivery) (s : Session)
      → IsUnmarked s.runs
      → ((deliver_all vs s).incidents ≡ s.incidents) × IsUnmarked (deliver_all vs s).runs
  unfolding deliver_all
  deliver_all-IsUnmarked [] s w = (refl, w)
  deliver_all-IsUnmarked (v ∷ vs) s w =
      let (same, once) = deliver-IsHarmless v s w in
      let (later, more) = deliver_all-IsUnmarked vs (deliver v s) once in (later ∙ same, more)
