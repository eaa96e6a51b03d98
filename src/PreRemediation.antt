-- ===== src/PreRemediation.antt =====
-- app/domain/validators/pre_remediation.py: the checks before a fix is executed.
pub mod Verdict
pub mod Tests
use devflowfix.Base.{
  ℕ, Bool, true, false, not, ◌&&◌, ◌||◌, Option, none, some, List, [], ◌∷◌, String, str_eq, truthy,
  is_empty, ltb, if◌then◌else◌,
}
use devflowfix.Validation.{
  Check, ValidationResult, error, warning, info, create_check, create_check_at, errors_passed,
  has_warnings, incident_data_completeness, plan_exists, confidence_threshold, blacklist_check,
  environment_check, risk_level_check, prerequisites_check,
}
use devflowfix.Core.Enums.{
  oom_killed, auth_expired, permission_denied, config_error, invalid_yaml, missing_secret,
  disk_full, build_failure, test_failure, lint_failure, resource_exhausted, k8s_restart_pod,
  github_rerun_workflow, argocd_sync, k8s_delete_evicted_pods,
}
use devflowfix.Core.Incident.{Incident, environment_text}
use devflowfix.Core.Plan.{RemediationPlan, is_high_risk, is_critical_risk}
use devflowfix.Rules.Blacklist.{Combination, contains}
use devflowfix.Rules.Confidence.{Thresholds}

-- `PreRemediationValidator._load_blacklist`
unfoldable pub validator_blacklist : List Combination
validator_blacklist =
    (oom_killed, k8s_restart_pod)
    ∷ (oom_killed, github_rerun_workflow)
    ∷ (auth_expired, k8s_restart_pod)
    ∷ (auth_expired, argocd_sync)
    ∷ (permission_denied, k8s_restart_pod)
    ∷ (config_error, k8s_restart_pod)
    ∷ (invalid_yaml, k8s_restart_pod)
    ∷ (invalid_yaml, argocd_sync)
    ∷ (missing_secret, k8s_restart_pod)
    ∷ (missing_secret, argocd_sync)
    ∷ (disk_full, k8s_delete_evicted_pods)
    ∷ (build_failure, k8s_restart_pod)
    ∷ (test_failure, k8s_restart_pod)
    ∷ (lint_failure, k8s_restart_pod)
    ∷ (resource_exhausted, k8s_restart_pod)
    ∷ []

abbrev pub is_missing {ℓ} : {A : Type ℓ} → Option A → Bool
is_missing none = true
is_missing (some a) = false

unfoldable pub check_incident_data : Incident → Check
check_incident_data i =
    if str_eq i.error_log "" && not (truthy i.error_message)
    then create_check_at incident_data_completeness false error
    else if is_missing i.failure_type
    then create_check_at incident_data_completeness false error
    else create_check incident_data_completeness true

unfoldable pub check_plan_exists : Option RemediationPlan → Check
check_plan_exists none = create_check_at plan_exists false error
check_plan_exists (some p) = create_check plan_exists true

-- The threshold by the text of the environment; every other text takes the lowest one.
unfoldable pub validator_threshold : Thresholds → String → ℕ
validator_threshold c text =
    if str_eq text "prod" || str_eq text "production"
    then c.production_confidence
    else if str_eq text "staging" || str_eq text "stage"
    then c.high_confidence
    else c.min_confidence

abbrev confidence_check : ℕ → Option ℕ → Check
confidence_check threshold none = create_check_at confidence_threshold false error
confidence_check threshold (some x) =
    if ltb x threshold
    then create_check_at confidence_threshold false error
    else create_check confidence_threshold true

unfoldable pub check_confidence_threshold : Thresholds → Incident → Check
check_confidence_threshold c i =
    confidence_check (validator_threshold c (environment_text i)) i.confidence

unfoldable pub check_not_blacklisted : List Combination → Incident → Option RemediationPlan → Check
check_not_blacklisted blacklist i none = create_check_at blacklist_check true info
check_not_blacklisted blacklist i (some p) = elim i.failure_type [
  | none ↦ create_check_at blacklist_check true info
  | some f ↦
      if contains (f, p.action_type) blacklist
      then create_check_at blacklist_check false error
      else create_check blacklist_check true
]

unfoldable pub check_environment_requirements : Incident → Option RemediationPlan → Check
unfolding is_high_risk
check_environment_requirements i none = create_check environment_check true
check_environment_requirements i (some p) =
    if str_eq (environment_text i) "prod" && (is_high_risk p && not p.requires_approval)
    then create_check_at environment_check false warning
    else create_check environment_check true

unfoldable pub check_risk_level : Option RemediationPlan → Check
check_risk_level none = create_check risk_level_check true
check_risk_level (some p) =
    if is_critical_risk p && not p.requires_approval
    then create_check_at risk_level_check false error
    else create_check risk_level_check true

-- The prerequisites of the plan are counted and not run.
unfoldable pub check_prerequisites : Option RemediationPlan → Check
check_prerequisites none = create_check prerequisites_check true
check_prerequisites (some p) =
    if is_empty p.pre_validation_checks
    then create_check prerequisites_check true
    else create_check prerequisites_check true

unfoldable pub pre_checks :
    Thresholds → List Combination → Incident → Option RemediationPlan → List Check
unfolding check_incident_data check_plan_exists check_confidence_threshold check_not_blacklisted
    check_environment_requirements check_risk_level check_prerequisites
pre_checks c blacklist i p =
    check_incident_data i
    ∷ check_plan_exists p
    ∷ check_confidence_threshold c i
    ∷ check_not_blacklisted blacklist i p
    ∷ check_environment_requirements i p
    ∷ check_risk_level p
    ∷ check_prerequisites p
    ∷ []

unfoldable pub validate_plan :
    Thresholds → List Combination → Incident → Option RemediationPlan → ValidationResult
validate_plan c blacklist i p =
    let checks = pre_checks c blacklist i p in
    let r : ValidationResult = record {
      passed = errors_passed checks;
      checks = checks;
      warned = false;
    } in
    record r { warned = has_warnings r }
