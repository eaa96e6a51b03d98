-- ===== src/Remediator/Entry.antt =====
-- app/services/remediator.py, `execute`: the plan is made from the analysis, and the incident gets
-- what the analysis found. The parameters and the reason of the plan are left out.
use devflowfix.Base.{true, false, Option, none, some, []}
use devflowfix.Core.Enums.{ActionType, RiskLevel, map_failure_to_action}
use devflowfix.Core.Context.{ExecutionContext}
use devflowfix.Core.Incident.{Incident}
use devflowfix.Core.Plan.{RemediationPlan, RemediationResult}
use devflowfix.Limits.{Tracker}
use devflowfix.Strategy.{AnalysisResult}
use devflowfix.Remediator.{Service, Flags, Clock, Remediator, execute_remediation}

abbrev or_found {ℓ} : {A : Type ℓ} → Option A → A → Option A
or_found none a = some a
or_found (some b) a = some b

unfoldable pub adopt_analysis : AnalysisResult → Incident → Incident
adopt_analysis a i = record i {
  failure_type = or_found i.failure_type a.category;
  fixability = or_found i.fixability a.fixability;
  confidence = or_found i.confidence a.confidence;
}

unfoldable pub plan_for : AnalysisResult → ExecutionContext → RemediationPlan
plan_for a ctx = record {
  action_type = map_failure_to_action a.category;
  risk_level = RiskLevel.medium;
  estimated_duration_seconds = 60;
  requires_approval = ctx.requires_approval;
  requires_rollback_snapshot = true;
  pre_validation_checks = [];
}

abbrev pub no_flags : Flags
no_flags = record {
  skip_pre_validation = false;
  skip_post_validation = false;
  skip_blast_radius_check = false;
  db = false;
}

-- The event processor gives no database session. `create` is the factory of remediators.
unfoldable pub execute :
    Service
    → Clock
    → (ActionType → Remediator)
    → AnalysisResult
    → ExecutionContext
    → Incident
    → Tracker
    → Incident × (Tracker × Option RemediationResult)
execute sv k create a ctx i s =
    let j = adopt_analysis a i in
    let p = plan_for a ctx in (j, execute_remediation sv no_flags k j p (create p.action_type) s)
