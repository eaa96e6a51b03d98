-- ===== src/PullRequests/Tests.antt =====
-- Concrete attempts at pull requests for app/services/event_processor.py.
use devflowfix.Base.{is_some, ◌≤◌, ◌≡◌, ◌⊎◌, true, false, none, some, List, [], ◌∷◌, length}
use devflowfix.Core.Enums.{IncidentSource}
use devflowfix.Core.Tests.{ten_thousandths}
use devflowfix.PullRequests.{Context, PrResult, Creation, head, returned, raised, conclude}
use devflowfix.PullRequests.Gate.{Try, attempt, admits, attempt_iff, run, run-once}

abbrev broken_build : Context
broken_build = record {
  source = IncidentSource.github;
  repository = some "acme/billing";
  user_id = some "ann";
  automated_pr = none;
  post_analysis = none;
}

abbrev opened : PrResult
opened = record { number = some 12; html_url = none; head_of = head (some "fix/inc_7") }

abbrev sure : Try
sure = record {
  now = 10;
  later = 11;
  enable_auto_pr = true;
  confidence = 9000;
  has_changes = true;
  creation = returned opened;
}

attempt_iff_example :
    (admits ten_thousandths sure broken_build ≡ true
      → attempt ten_thousandths sure broken_build ≡ conclude 10 11 (returned opened) broken_build)
    × (admits ten_thousandths sure broken_build ≡ false
        → ((attempt ten_thousandths sure broken_build).1 ≡ none)
          × ((attempt ten_thousandths sure broken_build).0.automated_pr ≡ none)
          × ((k : Creation)
              → attempt ten_thousandths (record sure { creation = k }) broken_build
                ≡ attempt ten_thousandths sure broken_build))
attempt_iff_example = attempt_iff ten_thousandths sure broken_build

abbrev tries : List Try
tries = record sure { creation = raised "timeout" } ∷ sure ∷ sure ∷ []

run-once_example :
    (length (run ten_thousandths tries broken_build).1 ≤ 1)
    × (((run ten_thousandths tries broken_build).1 ≡ [])
        ⊎ (is_some (run ten_thousandths tries broken_build).0.automated_pr ≡ true))
run-once_example = run-once ten_thousandths tries broken_build
