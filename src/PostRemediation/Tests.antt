-- ===== src/PostRemediation/Tests.antt =====
-- Concrete incidents for app/domain/validators/post_remediation.py.
use devflowfix.Base.{◌≡◌, ◌↔◌, true, false, none, some, []}
use devflowfix.Core.Enums.{Outcome}
use devflowfix.Core.Incident.{Incident, start_remediation, end_remediation}
use devflowfix.Core.Plan.{RemediationResult}
use devflowfix.Core.Tests.{build_broken}
use devflowfix.PreRemediation.Tests.{rerun}
use devflowfix.PostRemediation.{validate_fix}
use devflowfix.PostRemediation.Verdict.{IsConfirmed, confirms, validate_fix_iff}

abbrev pub fixed : Incident
fixed = end_remediation 9000000 2 3 4 5 true none (start_remediation 2000000 2 build_broken)

abbrev pub green : RemediationResult
green = record {
  success = true;
  outcome = Outcome.success;
  pre_validation_passed = true;
  post_validation_passed = true;
  rollback_required = false;
  rollback_performed = false;
  execution_logs = [];
}

validate_fix_iff_example :
    ((confirms (validate_fix 300 fixed (some rerun)) ≡ true) ↔ IsConfirmed 300 fixed)
    × (fixed.remediation_executed ≡ true
        → fixed.outcome ≡ none
        → validate_fix 300 fixed (some rerun) ≡ none)
validate_fix_iff_example = validate_fix_iff 300 fixed (some rerun)
