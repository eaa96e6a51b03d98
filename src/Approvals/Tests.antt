-- ===== src/Approvals/Tests.antt =====
-- Concrete clicks for app/adapters/external/slack/approvals.py.
use devflowfix.Base.{
  join, replace, behind, ◌≤◌, ◌<◌, ◌≡◌, ◌≢◌, refl, true, none, some, [], ◌∷◌, String, lookup,
  insert,
}
use devflowfix.Core.Tests.{build_broken}
use devflowfix.PreRemediation.Tests.{rerun}
use devflowfix.Approvals.{
  Approvals, Pending, Click, User, returned, response, error, timed_out, refused, no_pending,
  parse_action, request_approval, check_callback, handle_callback,
}
use devflowfix.Approvals.Answers.{Says, handle_callback-once}
use devflowfix.Approvals.Interleavings.{
  World, Reach, here, next, requests, checks, idle, IsGuarded, Reach-IsGuarded,
}

abbrev asked : Approvals
asked = (request_approval 0 5 30 none "inc_7" build_broken rerun (response (some "1.0")) []).0

abbrev entry : Pending
entry = record {
  incident = build_broken;
  plan = rerun;
  message_ts = some "1.0";
  requested_at = 5;
  timeout_at = 1800000000;
  requestor = none;
}

abbrev yes_click : Click
yes_click = record { id = "inc_7"; approved = true }

abbrev someone : User
someone = record { username = some "ops"; name = none; id = none }

clicked : parse_action "approve_inc_7" ≡ some yes_click
unfolding parse_action behind replace join
clicked = refl

asked_there : lookup "inc_7" asked ≡ some entry
unfolding request_approval lookup insert
asked_there = refl

handle_callback-once_example :
    let r = handle_callback 9 10 true (returned true) someone ("approve_inc_7" ∷ []) asked in
    (1800000000 < 9 → r ≡ (asked, error timed_out))
    × (9 ≤ 1800000000
        → Says yes_click true (returned true) r.1
          × ((id : String) → "inc_7" ≢ id → lookup id r.0 ≡ lookup id asked)
          × (check_callback 11 ("approve_inc_7" ∷ []) r.0 ≡ refused no_pending))
handle_callback-once_example =
    handle_callback-once 9 10 11 true (returned true) someone "approve_inc_7" yes_click entry asked
      clicked asked_there

abbrev asked_world : World
asked_world = record idle { pending = asked; requested = "inc_7" ∷ [] }

abbrev clicked_world : World
clicked_world = record asked_world { waiting = yes_click ∷ []; approved = "inc_7" ∷ [] }

clicked_reached : Reach true idle clicked_world
unfolding idle check_callback parse_action behind replace join request_approval lookup insert
clicked_reached =
    next (next here (requests idle 0 5 30 none "inc_7" build_broken rerun (some "1.0")))
      (checks asked_world 9 ("approve_inc_7" ∷ []) yes_click entry refl)

Reach-IsGuarded_example : IsGuarded "inc_7" clicked_world
Reach-IsGuarded_example = Reach-IsGuarded true "inc_7" clicked_world clicked_reached
