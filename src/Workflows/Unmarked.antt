-- ===== src/Workflows/Unmarked.antt =====
-- app/services/workflow/workflow_tracker.py: runs of which none has failed or has an incident.
use devflowfix.Base.{
  ℕ, ◌≤◌, ◌≡◌, refl, Bool, false, not, ◌&&◌, ◌||◌, Option, none, some, is_some, List, [], ◌∷◌, ◌++◌,
  String, find, change_first, count, count-change, count-change-found, count-append-one,
  count-has_keys-append, truthy, arith,
}
use devflowfix.Workflows.{
  RepositoryConnection, TrackedRun, RunEvent, Fresh, is_failing, is_run, updated_run, new_run,
}

abbrev pub is_marked : TrackedRun → Bool
is_marked r = (is_failing r.conclusion && is_some r.commit_sha) || truthy r.incident_id

-- No run of a known commit has failed, none has an incident, and none is recorded twice.
pub record IsUnmarked (rs : List TrackedRun) : Type 0 where
  pub unmarked : count is_marked rs ≡ 0
  pub distinct : (connection run : String) → count (is_run connection run) rs ≤ 1

pub added-IsUnmarked :
    (f : Fresh) (c : RepositoryConnection) (e : RunEvent) (started finished : Option ℕ)
    (texts : Option String × Option String) (rs : List TrackedRun)
    → find (is_run c.id e.run_id) rs ≡ none
    → is_marked (new_run f c e started finished texts) ≡ false
    → IsUnmarked rs
    → IsUnmarked (rs ++ new_run f c e started finished texts ∷ [])
unfolding new_run
added-IsUnmarked f c e started finished texts rs n h w =
    let new = new_run f c e started finished texts in
    let grown = count-append-one is_marked rs new in
    record {
      unmarked = ground (arith, grown, h, w.unmarked);
      distinct = λ connection run.
          count-has_keys-append (λ r. r.repository_connection_id) (λ r. r.run_id) rs new connection
            run n (w.distinct connection run);
    }

pub changed-IsUnmarked :
    (f : Fresh) (e : RunEvent) (started finished : Option ℕ) (p : TrackedRun → Bool)
    (rs : List TrackedRun) (r : TrackedRun)
    → find p rs ≡ some r
    → is_marked (updated_run f e started finished r) ≡ false
    → IsUnmarked rs
    → IsUnmarked (change_first p (updated_run f e started finished) rs)
unfolding updated_run
changed-IsUnmarked f e started finished p rs r n h w =
    let u = updated_run f e started finished in
    record {
      unmarked = count-change-found p is_marked u rs r n h w.unmarked;
      distinct = λ connection run.
          let same = count-change p (is_run connection run) u rs (λ y. refl) in
          omega (arith, same, w.distinct connection run);
    }

-- A row that is committed is unmarked: where it failed, its commit is not known.
pub new-unmarked :
    (f : Fresh) (c : RepositoryConnection) (e : RunEvent) (started finished : Option ℕ)
    (texts : Option String × Option String)
    → let new = new_run f c e started finished texts in
      (is_failing e.conclusion && is_some new.commit_sha) ≡ false → is_marked new ≡ false
unfolding new_run
new-unmarked f c e started finished texts h = ground (arith, h)

pub update-unmarked :
    (f : Fresh) (e : RunEvent) (started finished : Option ℕ) (r : TrackedRun)
    → let update = updated_run f e started finished r in
      is_marked r ≡ false
      → ((is_failing e.conclusion && not (truthy r.incident_id)) && is_some update.commit_sha)
        ≡ false
      → is_marked update ≡ false
unfolding updated_run
update-unmarked f e started finished r clean h = ground (arith, clean, h)
