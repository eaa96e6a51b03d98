-- ===== src/Workflows/Made.antt =====
-- app/services/workflow/workflow_tracker.py: the row that an event of a run comes to.
use devflowfix.Base.{ℕ, ◌≡◌, refl, Bool, false, Option, none, some, String, arith}
use devflowfix.Workflows.{
  RepositoryConnection, TrackedRun, RunEvent, Fresh, is_storable, updated_run, new_run,
  commit_texts, is_taken, time_of, finish_time,
}

-- The row that an event makes, where all that it reads can be read.
abbrev pub new_of :
    Fresh
    → RepositoryConnection
    → RunEvent
    → Option (Option ℕ)
    → Option (Option ℕ)
    → Option (Option String × Option String)
    → Option TrackedRun
new_of f c e (some started) (some finished) (some texts) =
    some (new_run f c e started finished texts)
new_of f c e (some started) (some finished) none = none
new_of f c e (some started) none texts = none
new_of f c e none finished texts = none

abbrev pub update_of :
    Fresh → RunEvent → Option (Option ℕ) → Option (Option ℕ) → TrackedRun → Option TrackedRun
update_of f e (some started) (some finished) r = some (updated_run f e started finished r)
update_of f e (some started) none r = none
update_of f e none finished r = none

module _ (from_iso : String → Option ℕ) (accepts : TrackedRun → Bool) where
  -- The row that an event makes of the one that is known.
  unfoldable pub row_of :
      Fresh → RepositoryConnection → RunEvent → Option TrackedRun → Option TrackedRun
  row_of f c e none =
      new_of f c e (time_of from_iso accepts e.run_started_at) (finish_time from_iso accepts e)
        (commit_texts e.head_commit)
  row_of f c e (some r) =
      update_of f e (time_of from_iso accepts e.run_started_at)
        (time_of from_iso accepts e.updated_at) r

  abbrev pub is_recorded : Option TrackedRun → Bool
  is_recorded none = false
  is_recorded (some row) = is_taken from_iso accepts row

  -- A row without a status is not taken.
  new_of-unstated :
      (f : Fresh) (c : RepositoryConnection) (e : RunEvent) (started finished : Option (Option ℕ))
      (texts : Option (Option String × Option String))
      → e.status ≡ none
      → is_recorded (new_of f c e started finished texts) ≡ false
  unfolding new_run is_storable
  new_of-unstated f c e none finished texts h = refl
  new_of-unstated f c e (some started) none texts h = refl
  new_of-unstated f c e (some started) (some finished) none h = refl
  new_of-unstated f c e (some started) (some finished) (some texts) h = rw h (ground arith)

  update_of-unstated :
      (f : Fresh) (e : RunEvent) (started finished : Option (Option ℕ)) (r : TrackedRun)
      → e.status ≡ none
      → is_recorded (update_of f e started finished r) ≡ false
  unfolding updated_run is_storable
  update_of-unstated f e none finished r h = refl
  update_of-unstated f e (some started) none r h = refl
  update_of-unstated f e (some started) (some finished) r h = rw h (ground arith)

  pub row_of-unstated :
      (f : Fresh) (c : RepositoryConnection) (e : RunEvent) (o : Option TrackedRun)
      → e.status ≡ none
      → is_recorded (row_of f c e o) ≡ false
  unfolding row_of
  row_of-unstated f c e none h = new_of-unstated f c e _ _ _ h
  row_of-unstated f c e (some r) h = update_of-unstated f e _ _ r h
