-- ===== src/Workflows/Tracked.antt =====
-- app/services/workflow/workflow_tracker.py: runs that did not fail.
use devflowfix.Base.{
  ℕ, ◌≡◌, refl, ◌∙◌, sym, Bool, true, false, not, ◌&&◌, Option, none, some, List, [], ◌∷◌, ◌++◌,
  String, find, change_first, find-last, find-change, find-unchanged, find-append-none, find-passes,
  truthy, str_eq, eq_iff, Option-cases, Bool-cases, inl, inr, if◌then◌else◌, arith,
}
use devflowfix.Workflows.Made.{new_of, update_of, row_of, is_recorded, row_of-unstated}
use devflowfix.Workflows.{
  RepositoryConnection, TrackedRun, Session, RunEvent, Fresh, is_failing, touch, is_run,
  is_for_connection, updated_run, new_run, commit_texts, is_taken, time_of, finish_time, add_new,
  update_existing, process_workflow_run_event, committed, process_oauth_connected_workflow_event,
}

-- The row is found as the run of the event, with what it reports, and the other runs as before.
pub record IsTracked (c : RepositoryConnection) (e : RunEvent) (before after : List TrackedRun)
    (row : TrackedRun) : Type 0 where
  pub found : find (is_run c.id e.run_id) after ≡ some row
  pub reported : row.status ≡ e.status
  pub concluded : row.conclusion ≡ e.conclusion
  pub others :
      (connection run : String)
      → (str_eq c.id connection && str_eq e.run_id run) ≡ false
      → find (is_run connection run) after ≡ find (is_run connection run) before

added-IsTracked :
    (f : Fresh) (c : RepositoryConnection) (e : RunEvent) (started finished : Option ℕ)
    (texts : Option String × Option String) (rs : List TrackedRun)
    → find (is_run c.id e.run_id) rs ≡ none
    → let new = new_run f c e started finished texts in IsTracked c e rs (rs ++ new ∷ []) new
unfolding new_run
added-IsTracked f c e started finished texts rs n =
    let new = new_run f c e started finished texts in
    record {
      found =
          find-last (is_run c.id e.run_id) (is_run c.id e.run_id) rs new n (λ y h. h)
            (ground (arith, eq_iff c.id c.id, eq_iff e.run_id e.run_id));
      reported = refl;
      concluded = refl;
      others = λ connection run h. find-append-none (is_run connection run) rs new h;
    }

another :
    (c : RepositoryConnection) (e : RunEvent) (connection run : String) (y : TrackedRun)
    → (str_eq c.id connection && str_eq e.run_id run) ≡ false
    → is_run c.id e.run_id y ≡ true
    → is_run connection run y ≡ false
another c e connection run y n h =
    let p : y.repository_connection_id ≡ c.id =
      ground (arith, h, eq_iff y.repository_connection_id c.id) in
    let q : y.run_id ≡ e.run_id = ground (arith, h, eq_iff y.run_id e.run_id) in rw (p, q) n

changed-IsTracked :
    (f : Fresh) (c : RepositoryConnection) (e : RunEvent) (started finished : Option ℕ)
    (rs : List TrackedRun) (r : TrackedRun)
    → find (is_run c.id e.run_id) rs ≡ some r
    → let update = updated_run f e started finished in
      IsTracked c e rs (change_first (is_run c.id e.run_id) update rs) (update r)
unfolding updated_run
changed-IsTracked f c e started finished rs r k =
    let u = updated_run f e started finished in
    let p = is_run c.id e.run_id in
    record {
      found = find-change p p u rs r k (λ y h. h) (find-passes p rs r k);
      reported = refl;
      concluded = refl;
      others = λ connection run n.
          find-unchanged p (is_run connection run) u rs (λ y h. another c e connection run y n h)
            (λ y h. another c e connection run y n h);
    }

module _ (from_iso : String → Option ℕ) (accepts : TrackedRun → Bool) where
  -- What an event comes to that makes the row `made`: it is committed where its table takes the row,
  -- and is undone otherwise.
  record IsOutcome (c : RepositoryConnection) (e : RunEvent) (made : Option TrackedRun)
      (s : Session) (o : Session × Bool) : Type 0 where
    pub decided : o.1 ≡ is_recorded from_iso accepts made
    pub tracked :
        (row : TrackedRun) → made ≡ some row → o.1 ≡ true → IsTracked c e s.runs o.0.runs row
    pub undone : o.1 ≡ false → o.0 ≡ s

  flushed-IsOutcome :
      (c : RepositoryConnection) (e : RunEvent) (row : TrackedRun) (s s' : Session)
      → s'.failed ≡ false
      → IsTracked c e s.runs s'.runs row
      → IsOutcome c e
          (some row)
          s
          (committed s (if not (is_taken from_iso accepts row) then none else some s'))
  flushed-IsOutcome c e row s s' g h = elim (Bool-cases (is_taken from_iso accepts row)) [
    | inl t ↦
        rw (t, g)
          (record {
            decided = cc;
            tracked = λ other k l. let same : row ≡ other = cc in rw (sym same) h;
            undone = λ k. cc;
          })
    | inr t ↦ rw t (record { decided = cc; tracked = λ other k l. cc; undone = λ k. refl })
  ]

  undone-IsOutcome :
      (c : RepositoryConnection) (e : RunEvent) (s : Session) → IsOutcome c e none s (s, false)
  undone-IsOutcome c e s = record {
    decided = refl;
    tracked = λ row k l. ground (arith, l);
    undone = λ k. refl;
  }

  new-IsOutcome :
      (f : Fresh) (c : RepositoryConnection) (e : RunEvent) (s s' : Session)
      (started finished : Option (Option ℕ)) (texts : Option (Option String × Option String))
      → is_failing e.conclusion ≡ false
      → s'.failed ≡ false
      → s'.runs ≡ s.runs
      → find (is_run c.id e.run_id) s.runs ≡ none
      → IsOutcome c e
          (new_of f c e started finished texts)
          s
          (committed s (add_new from_iso accepts f c e started finished texts s'))
  new-IsOutcome f c e s s' none finished texts h g k n = undone-IsOutcome c e s
  new-IsOutcome f c e s s' (some started) none texts h g k n = undone-IsOutcome c e s
  new-IsOutcome f c e s s' (some started) (some finished) none h g k n = undone-IsOutcome c e s
  new-IsOutcome f c e s s' (some started) (some finished) (some texts) h g k n =
      let new = new_run f c e started finished texts in
      rw h (
        flushed-IsOutcome c e new s (record s' { runs = s'.runs ++ new ∷ [] }) g
          (rw k (added-IsTracked f c e started finished texts s.runs n)))

  update-IsOutcome :
      (f : Fresh) (c : RepositoryConnection) (e : RunEvent) (r : TrackedRun) (s s' : Session)
      (started finished : Option (Option ℕ))
      → is_failing e.conclusion ≡ false
      → s'.failed ≡ false
      → s'.runs ≡ s.runs
      → find (is_run c.id e.run_id) s.runs ≡ some r
      → IsOutcome c e
          (update_of f e started finished r)
          s
          (committed s (update_existing from_iso accepts f c e r started finished s'))
  update-IsOutcome f c e r s s' none finished h g k n = undone-IsOutcome c e s
  update-IsOutcome f c e r s s' (some started) none h g k n = undone-IsOutcome c e s
  update-IsOutcome f c e r s s' (some started) (some finished) h g k n =
      let p = is_run c.id e.run_id in
      let u = updated_run f e started finished in
      rw h (
        flushed-IsOutcome c e (u r) s (record s' { runs = change_first p u s'.runs }) g
          (rw k (changed-IsTracked f c e started finished s.runs r n)))

  process-IsOutcome :
      (f : Fresh) (c : RepositoryConnection) (e : RunEvent) (s : Session)
      (connections : List RepositoryConnection)
      → is_failing e.conclusion ≡ false
      → s.failed ≡ false
      → let made = row_of from_iso accepts f c e (find (is_run c.id e.run_id) s.runs) in
        let s' = record s { connections = connections } in
        IsOutcome c e made s (committed s (process_workflow_run_event from_iso accepts f c e s'))
  unfolding process_workflow_run_event row_of
  process-IsOutcome f c e s connections h g =
      let s' = record s { connections = connections } in
      elim (Option-cases (find (is_run c.id e.run_id) s.runs)) [
        | inl n ↦ rw n (
            new-IsOutcome f c e s s' (time_of from_iso accepts e.run_started_at)
              (finish_time from_iso accepts e) (commit_texts e.head_commit) h g refl n)
        | inr (r, n) ↦ rw n (
            update-IsOutcome f c e r s s' (time_of from_iso accepts e.run_started_at)
              (time_of from_iso accepts e.updated_at) h g refl n)
      ]

  -- An event of an enabled connection whose run did not fail, on a session of which no flush
  -- failed, makes a row: of a run that was not known a new one, of a known one an update, and none
  -- where a time that it needs cannot be read, or, of a new run, null stands for its head commit or
  -- the author of it. The event is committed exactly where there is such a row and the database
  -- takes it. Then the row is found as the run of the event, with the status and the conclusion
  -- that it reports, and all runs of other numbers or connections are found as before. Where it is
  -- not committed, as where the event has no status, nothing has changed.
  pub event-IsTracked :
      (f : Fresh) (user name : String) (c : RepositoryConnection) (e : RunEvent) (s : Session)
      → truthy (some name) ≡ true
      → find (is_for_connection user name) s.connections ≡ some c
      → is_failing e.conclusion ≡ false
      → s.failed ≡ false
      → let made = row_of from_iso accepts f c e (find (is_run c.id e.run_id) s.runs) in
        let o =
          process_oauth_connected_workflow_event from_iso accepts f user "workflow_run"
            (some name)
            e
            s in
        (o.1 ≡ is_recorded from_iso accepts made)
        × ((row : TrackedRun) → made ≡ some row → o.1 ≡ true → IsTracked c e s.runs o.0.runs row)
        × (o.1 ≡ false → o.0 ≡ s)
        × (e.status ≡ none → o.1 ≡ false)
  unfolding process_oauth_connected_workflow_event
  event-IsTracked f user name c e s k l h g =
      let touched = change_first (is_for_connection user name) (touch f.received) s.connections in
      let w = process-IsOutcome f c e s touched h g in
      rw (k, l)
        (
          w.decided,
          w.tracked,
          w.undone,
          λ n. w.decided ∙ row_of-unstated from_iso accepts f c e _ n,
        )
