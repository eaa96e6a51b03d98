-- ===== src/Processor/Tests.antt =====
-- Concrete decisions for app/services/event_processor.py.
use devflowfix.Base.{◌≡◌, ◌≢◌, ◌⊎◌, refl, true, false, none, some, []}
use devflowfix.Core.Incident.{is_failed}
use devflowfix.Core.Tests.{build_broken}
use devflowfix.Limits.{no_fixes}
use devflowfix.Strategy.{DecisionResult, all_criteria_met, below_threshold}
use devflowfix.Decision.Tests.{sure, live}
use devflowfix.Remediator.Tests.{service, clock, good, build_broken_open}
use devflowfix.Processor.{Parts, Stamps, awaiting_approval, process, process_background}
use devflowfix.Processor.Paths.{paths_compared, process_fix_fails}

abbrev parts : Parts
parts = record {
  service = service;
  create = λ a. good;
  reason_text = λ r. "reason";
  result_text = λ r. none;
  error_text = "error";
}

abbrev stamps : Stamps
stamps = record {
  started = 15;
  start_updated = 15;
  ended = 17;
  end_updated = 18;
  resolved = 19;
  updated = 20;
  measured = 21;
}

abbrev go : DecisionResult
go = record {
  should_auto_fix = true;
  confidence = 9700;
  reason = all_criteria_met;
  requires_approval = false;
  escalate = false;
  warnings = [];
}

abbrev ask : DecisionResult
ask = record go { should_auto_fix = false; reason = below_threshold; requires_approval = true }

paths_compared_example :
    let front = process parts stamps clock sure live ask build_broken no_fixes in
    let back = process_background parts stamps clock sure live ask build_broken no_fixes in
    (false ≡ true ⊎ (true ≡ false) → (front.incident ≡ back.0) × (front.tracker ≡ back.1))
    × (false ≡ false
        → true ≡ true
        → (front.incident.resolved_at ≡ some 19)
          × (front.answer.stage ≢ awaiting_approval)
          × (back.0.resolved_at ≡ none)
          × (back.0.outcome_message ≡ some "Awaiting human approval"))
paths_compared_example = paths_compared parts stamps clock sure live ask build_broken no_fixes

process_fix_fails_example :
    let r = process parts stamps clock sure live go build_broken no_fixes in
    (r.answer.success ≡ false) × (is_failed r.incident ≡ true)
process_fix_fails_example =
    process_fix_fails parts stamps clock sure live go build_broken no_fixes refl refl
      build_broken_open
