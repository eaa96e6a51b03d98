-- ===== src/Core/Plan.antt =====
-- app/core/models/remediation.py: the remediation plan and its result. Of the texts of a result only
-- the log is modelled, with a constructor for each line that app/services/remediator.py writes.
use devflowfix.Base.{ℕ, Bool, true, false, not, ◌&&◌, ◌||◌, List, String}
use devflowfix.Core.Enums.{ActionType, RiskLevel, Outcome}

pub record RemediationPlan : Type 0 where
  pub action_type : ActionType
  pub risk_level : RiskLevel
  pub estimated_duration_seconds : ℕ
  pub requires_approval : Bool
  pub requires_rollback_snapshot : Bool
  pub pre_validation_checks : List String

unfoldable pub is_high_risk : RemediationPlan → Bool
is_high_risk p = elim p.risk_level [ RiskLevel.high ↦ true | RiskLevel.critical ↦ true | _ ↦ false ]

abbrev pub is_critical_risk : RemediationPlan → Bool
is_critical_risk p = elim p.risk_level [ RiskLevel.critical ↦ true | _ ↦ false ]

unfoldable pub plan_is_safe : RemediationPlan → Bool
plan_is_safe p = elim p.risk_level [ RiskLevel.low ↦ true | RiskLevel.medium ↦ true | _ ↦ false ]

pub data LogEntry : Type 0 where
  pre_validation blast_radius_check remediation_execution post_validation rollback : Bool → LogEntry
  executing : ActionType → LogEntry
  reported : String → LogEntry
  rollback_after_failure rollback_after_validation workflow_error : LogEntry

pub record RemediationResult : Type 0 where
  pub success : Bool
  pub outcome : Outcome
  pub pre_validation_passed : Bool
  pub post_validation_passed : Bool
  pub rollback_required : Bool
  pub rollback_performed : Bool
  pub execution_logs : List LogEntry

abbrev is_success : Outcome → Bool
is_success o = elim o [ Outcome.success ↦ true | _ ↦ false ]

abbrev is_failure : Outcome → Bool
is_failure o = elim o [ Outcome.failed ↦ true | _ ↦ false ]

unfoldable pub is_successful : RemediationResult → Bool
is_successful r = r.success && is_success r.outcome

unfoldable pub has_failed : RemediationResult → Bool
has_failed r = not r.success || is_failure r.outcome

unfoldable pub needs_rollback : RemediationResult → Bool
needs_rollback r = r.rollback_required && not r.rollback_performed
