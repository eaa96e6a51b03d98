-- ===== src/Workflows.antt =====
-- app/services/workflow/workflow_tracker.py and its caller in app/api/v1/webhook_provider_handlers.py:
-- the runs of workflows that GitHub reports. `from_iso` is datetime.fromisoformat, with `none` where
-- it raises, and `accepts` is what the database asks of a row of a run besides its columns' lengths and
-- nulls (keys of other tables, one row per run). A session is a database with its uncommitted changes;
-- once a flush failed, it only accepts a rollback.
mod Tables
pub mod Made
pub mod Unmarked
pub mod Lost
pub mod Tracked
mod Tests
unfoldable pub use Tables.*
use devflowfix.Base.{
  ℕ, Bool, true, false, not, ◌&&◌, Option, none, some, is_some, List, [], ◌∷◌, ◌++◌, String, find,
  change_first, replace, truthy, str_eq, if◌then◌else◌,
}

abbrev pub or_text : Option String → String → String
or_text none d = d
or_text (some s) d = s

-- .get(key, default), which is null where null is given.
abbrev get_or : Given String → String → Option String
get_or absent d = some d
get_or null d = none
get_or (given s) d = some s

-- The message of the head commit and the name of its author: `none` where .get is asked of null.
abbrev author_of : Option String → Given (Option String) → Option (Option String × Option String)
author_of message absent = some (message, none)
author_of message null = none
author_of message (given name) = some (message, name)

abbrev pub commit_texts : Given Commit → Option (Option String × Option String)
commit_texts absent = some (none, none)
commit_texts null = none
commit_texts (given c) = author_of c.message c.author

abbrev or_known : Option ℕ → Option ℕ → Option ℕ
or_known none old = old
or_known (some t) old = some t

abbrev pub is_text : String → Option String → Bool
is_text t none = false
is_text t (some s) = str_eq s t

abbrev pub is_failing : Option String → Bool
is_failing conclusion = is_text "failure" conclusion

abbrev pub is_run : String → String → TrackedRun → Bool
is_run connection run r = str_eq r.repository_connection_id connection && str_eq r.run_id run

abbrev pub is_tracked : String → TrackedRun → Bool
is_tracked id r = str_eq r.id id

unfoldable pub updated_run : Fresh → RunEvent → Option ℕ → Option ℕ → TrackedRun → TrackedRun
updated_run f e started finished r = record r {
  status = e.status;
  conclusion = e.conclusion;
  updated_at = f.updated;
  started_at = or_known started r.started_at;
  completed_at = or_known finished r.completed_at;
}

unfoldable pub new_run :
    Fresh
    → RepositoryConnection
    → RunEvent
    → Option ℕ
    → Option ℕ
    → Option String × Option String
    → TrackedRun
new_run f c e started finished texts = record {
  id = f.tracking_id;
  incident_id = none;
  repository_connection_id = c.id;
  run_id = e.run_id;
  run_number = e.run_number;
  workflow_name = get_or e.name "Unknown";
  workflow_id = e.workflow_id;
  status = e.status;
  conclusion = e.conclusion;
  branch = get_or e.head_branch "unknown";
  commit_sha = get_or e.head_sha "";
  commit_message = texts.0;
  author = texts.1;
  run_url = e.html_url;
  started_at = started;
  completed_at = if is_text "completed" e.status then finished else none;
  created_at = f.created;
  updated_at = f.updated;
}

-- The incident of a failed run. Title, description, status, repository, branch and commit are no
-- columns of its table, and its timestamp is not given.
unfoldable pub incident_of : Fresh → RepositoryConnection → IncidentRow
incident_of f c = record {
  incident_id = f.incident_id;
  user_id = c.user_id;
  timestamp = none;
  severity = "high";
  source = "github_oauth";
  created_at = f.incident_created;
  updated_at = f.incident_updated;
}

-- The column of the timestamp may not be empty.
abbrev pub is_complete : IncidentRow → Bool
is_complete row = is_some row.timestamp

abbrev link : String → TrackedRun → TrackedRun
link incident_id r = record r { incident_id = some incident_id }

-- `_create_incident_for_failure`, which catches what it raises: where the run has no commit, the
-- first seven letters of it, before the session is touched; else the exception of the flush.
unfoldable pub create_incident_for_failure :
    Fresh → RepositoryConnection → TrackedRun → Session → Session
create_incident_for_failure f c r s =
    if not (is_some r.commit_sha)
    then s
    else if is_complete (incident_of f c)
    then record s {
      incidents = s.incidents ++ incident_of f c ∷ [];
      runs = change_first (is_tracked r.id) (link f.incident_id) s.runs;
    }
    else record s { failed = true }

abbrev pub is_for_connection : String → String → RepositoryConnection → Bool
is_for_connection user name c =
    str_eq c.user_id user && (str_eq c.repository_full_name name && c.is_enabled)

abbrev pub touch : ℕ → RepositoryConnection → RepositoryConnection
touch now c = record c { last_event_at = some now }

-- The commit, or the rollback to what there was, where the event or the commit raises.
abbrev pub committed : Session → Option Session → Session × Bool
committed s none = (s, false)
committed s (some s') = if s'.failed then (s, false) else (s', true)

module _ (from_iso : String → Option ℕ) (accepts : TrackedRun → Bool) where
  -- A time of the payload: `none` where it raises, `some none` where there is none.
  abbrev pub time_of : Option String → Option (Option ℕ)
  time_of none = some none
  time_of (some s) =
      if str_eq s ""
      then some none
      else elim (from_iso (replace "Z" "+00:00" s)) [ none ↦ none | some t ↦ some (some t) ]

  -- The flush of a row of a run: it raises where the table does not take it.
  abbrev pub is_taken : TrackedRun → Bool
  is_taken r = is_storable r && accepts r

  abbrev pub update_existing :
      Fresh
      → RepositoryConnection
      → RunEvent
      → TrackedRun
      → Option (Option ℕ)
      → Option (Option ℕ)
      → Session
      → Option Session
  update_existing f c e r none finished s = none
  update_existing f c e r (some started) none s = none
  update_existing f c e r (some started) (some finished) s =
      let update = updated_run f e started finished in
      let s' = record s { runs = change_first (is_run c.id e.run_id) update s.runs } in
      if not (is_taken (update r))
      then none
      else if is_failing e.conclusion && not (truthy r.incident_id)
      then some (create_incident_for_failure f c (update r) s')
      else some s'

  -- The second time is only read where the run is completed.
  abbrev pub finish_time : RunEvent → Option (Option ℕ)
  finish_time e = if is_text "completed" e.status then time_of e.updated_at else some none

  abbrev pub add_new :
      Fresh
      → RepositoryConnection
      → RunEvent
      → Option (Option ℕ)
      → Option (Option ℕ)
      → Option (Option String × Option String)
      → Session
      → Option Session
  add_new f c e none finished texts s = none
  add_new f c e (some started) none texts s = none
  add_new f c e (some started) (some finished) none s = none
  add_new f c e (some started) (some finished) (some texts) s =
      let new = new_run f c e started finished texts in
      let s' = record s { runs = s.runs ++ new ∷ [] } in
      if not (is_taken new)
      then none
      else if is_failing e.conclusion
      then some (create_incident_for_failure f c new s')
      else some s'

  abbrev pub process_found :
      Fresh → RepositoryConnection → RunEvent → Option TrackedRun → Session → Option Session
  process_found f c e none s =
      add_new f c e (time_of e.run_started_at) (finish_time e) (commit_texts e.head_commit) s
  process_found f c e (some r) s =
      update_existing f c e r (time_of e.run_started_at) (time_of e.updated_at) s

  unfoldable pub process_workflow_run_event :
      Fresh → RepositoryConnection → RunEvent → Session → Option Session
  process_workflow_run_event f c e s = process_found f c e (find (is_run c.id e.run_id) s.runs) s

  abbrev pub event_found :
      Fresh → String → String → RunEvent → Option RepositoryConnection → Session → Session × Bool
  event_found f user name e none s = (s, false)
  event_found f user name e (some c) s = committed s (
      process_workflow_run_event f c e (record s {
        connections = change_first (is_for_connection user name) (touch f.received) s.connections;
      }))

  unfoldable pub process_oauth_connected_workflow_event :
      Fresh → String → String → Option String → RunEvent → Session → Session × Bool
  process_oauth_connected_workflow_event f user event_type full_name e s =
      if not (str_eq event_type "workflow_run")
      then (s, false)
      else if not (truthy full_name)
      then (s, false)
      else event_found f user (or_text full_name "") e
          (find (is_for_connection user (or_text full_name "")) s.connections) s
