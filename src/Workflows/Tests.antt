-- ===== src/Workflows/Tests.antt =====
-- Concrete events for app/services/workflow/workflow_tracker.py.
use devflowfix.Base.{
  ℕ, ◌≡◌, refl, Bool, true, false, Option, none, some, [], ◌∷◌, String, find, change_first, count,
  keep, replace, replacing, behind, join, str_eq, if◌then◌else◌, arith,
}
use devflowfix.Workflows.{
  RepositoryConnection, TrackedRun, Session, RunEvent, absent, null, given, is_storable, Fresh,
  is_run, is_for_connection, new_run, incident_of, create_incident_for_failure,
  process_workflow_run_event, process_oauth_connected_workflow_event,
}
use devflowfix.Workflows.Unmarked.{IsUnmarked}
use devflowfix.Workflows.Lost.{Delivery, deliver_all, deliver_all-IsUnmarked}
use devflowfix.Workflows.Made.{row_of, is_recorded}
use devflowfix.Workflows.Tracked.{IsTracked, event-IsTracked}

abbrev pub reads_new_year : String → Option ℕ
reads_new_year s = if str_eq s "2026-01-01T00:00:00+00:00" then some 1000 else none

abbrev billing : RepositoryConnection
billing = record {
  id = "rpc_1";
  user_id = "ana";
  repository_full_name = "acme/billing";
  is_enabled = true;
  last_event_at = none;
}

abbrev one_connection : Session
one_connection = record { connections = billing ∷ []; runs = []; incidents = []; failed = false }

abbrev passed : RunEvent
passed = record {
  run_id = "77";
  run_number = some 5;
  status = some "completed";
  conclusion = some "success";
  name = given "ci";
  workflow_id = "9";
  head_branch = given "main";
  head_sha = given "abc";
  head_commit = absent;
  run_started_at = some "2026-01-01T00:00:00Z";
  updated_at = some "2026-01-01T00:00:00Z";
  html_url = none;
}

abbrev broken : RunEvent
broken = record passed { run_id = "78"; conclusion = some "failure" }

-- A failed run whose payload has null for its commit.
abbrev unknown_commit : RunEvent
unknown_commit = record broken { run_id = "79"; head_sha = null }

abbrev takes_all : TrackedRun → Bool
takes_all r = true

abbrev drawn : Fresh
drawn = record {
  tracking_id = "wfr_1";
  incident_id = "inc_1";
  received = 1001;
  created = 1002;
  updated = 1003;
  incident_created = 1004;
  incident_updated = 1005;
}

abbrev delivery : RunEvent → Delivery
delivery e = record {
  fresh = drawn;
  user = "ana";
  event_type = "workflow_run";
  full_name = some "acme/billing";
  event = e;
}

nothing_marked : IsUnmarked one_connection.runs
unfolding count keep
nothing_marked = record { unmarked = refl; distinct = λ connection run. omega arith }

deliver_all-IsUnmarked_example :
    let s =
      deliver_all reads_new_year takes_all
        (delivery passed ∷ delivery broken ∷ delivery unknown_commit ∷ [])
        one_connection in
    (s.incidents ≡ one_connection.incidents) × IsUnmarked s.runs
deliver_all-IsUnmarked_example =
    deliver_all-IsUnmarked reads_new_year takes_all
      (delivery passed ∷ delivery broken ∷ delivery unknown_commit ∷ []) one_connection
      nothing_marked

billing_found :
    find (is_for_connection "ana" "acme/billing") one_connection.connections ≡ some billing
unfolding find
billing_found = refl

event-IsTracked_example :
    let made =
      row_of reads_new_year takes_all drawn billing passed
        (find (is_run "rpc_1" "77") one_connection.runs) in
    let o =
      process_oauth_connected_workflow_event reads_new_year takes_all drawn "ana" "workflow_run"
        (some "acme/billing")
        passed
        one_connection in
    (o.1 ≡ is_recorded reads_new_year takes_all made)
    × ((row : TrackedRun)
        → made ≡ some row
        → o.1 ≡ true
        → IsTracked billing passed one_connection.runs o.0.runs row)
    × (o.1 ≡ false → o.0 ≡ one_connection)
    × (passed.status ≡ none → o.1 ≡ false)
event-IsTracked_example =
    event-IsTracked reads_new_year takes_all drawn "ana" "acme/billing" billing passed
      one_connection refl billing_found refl refl

-- A run that passed is recorded, and a failed run whose commit is not known, without an incident;
-- a failed run whose commit is known is not.
abbrev records : RunEvent → Bool
records e =
    (process_oauth_connected_workflow_event reads_new_year takes_all drawn "ana" "workflow_run"
      (some "acme/billing") e one_connection).1

passed_recorded : records passed ≡ true
unfolding process_oauth_connected_workflow_event process_workflow_run_event new_run is_storable
    replace replacing behind join find change_first
passed_recorded = refl

unknown_recorded : records unknown_commit ≡ true
unfolding process_oauth_connected_workflow_event process_workflow_run_event new_run is_storable
    create_incident_for_failure replace replacing behind join find change_first
unknown_recorded = refl

broken_dropped : records broken ≡ false
unfolding process_oauth_connected_workflow_event process_workflow_run_event new_run is_storable
    create_incident_for_failure incident_of replace replacing behind join find change_first
broken_dropped = refl
