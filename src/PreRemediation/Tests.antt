-- ===== src/PreRemediation/Tests.antt =====
-- Concrete plans for app/domain/validators/pre_remediation.py.
use devflowfix.Base.{◌≡◌, ◌↔◌, refl, true, false, none, some, [], lookup}
use devflowfix.Core.Enums.{RiskLevel, github_rerun_workflow}
use devflowfix.Core.Incident.{environment_text}
use devflowfix.Core.Plan.{RemediationPlan}
use devflowfix.Core.Tests.{build_broken}
use devflowfix.Rules.Tests.{defaults}
use devflowfix.PreRemediation.{validator_blacklist, validate_plan}
use devflowfix.PreRemediation.Verdict.{Ready, validate_plan_iff}

abbrev pub rerun : RemediationPlan
rerun = record {
  action_type = github_rerun_workflow;
  risk_level = RiskLevel.low;
  estimated_duration_seconds = 60;
  requires_approval = false;
  requires_rollback_snapshot = true;
  pre_validation_checks = [];
}

validate_plan_iff_example :
    (((validate_plan defaults validator_blacklist build_broken (some rerun)).passed ≡ true)
      ↔ Ready defaults validator_blacklist build_broken rerun)
    × ((validate_plan defaults validator_blacklist build_broken none).passed ≡ false)
validate_plan_iff_example = validate_plan_iff defaults validator_blacklist build_broken rerun

build_broken_text : environment_text build_broken ≡ "PROD"
unfolding environment_text lookup
build_broken_text = refl
