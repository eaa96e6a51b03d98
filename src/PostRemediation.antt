-- ===== src/PostRemediation.antt =====
-- app/domain/validators/post_remediation.py: the checks after a fix was executed. `none` stands for
-- the AttributeError of `incident.outcome.value` on an incident without an outcome.
pub mod Verdict
pub mod Tests
use devflowfix.Base.{
  ℕ, ◌*◌, Bool, true, false, not, ◌&&◌, Option, none, some, List, [], ◌∷◌, String, truthy, ltb,
  codes, lower, occurs, ◌==◌, if◌then◌else◌,
}
use devflowfix.Validation.{
  Check, ValidationResult, error, warning, info, create_check, create_check_at, errors_passed,
  has_warnings, incident_resolved, execution_success, no_new_failures, service_health,
  execution_time, outcome_consistency, remediation_result_success,
  post_validation_passed as result_validated,
}
use devflowfix.Core.Incident.{
  Incident, is_resolved, is_failed, get_service_name, calculate_remediation_duration,
}
use devflowfix.Core.Plan.{RemediationPlan, RemediationResult}

unfoldable pub check_incident_resolved : Incident → Check
unfolding is_resolved
check_incident_resolved i =
    if not (is_resolved i)
    then create_check_at incident_resolved false error
    else create_check incident_resolved true

unfoldable pub check_execution_success : Incident → Option Check
unfolding is_failed
check_execution_success i =
    if not i.remediation_executed
    then some (create_check_at execution_success false error)
    else if is_failed i
    then some (create_check_at execution_success false error)
    else elim i.outcome [ none ↦ none | some o ↦ some (create_check execution_success true) ]

-- "error" in message.lower()
abbrev mentions_error : Option String → Bool
mentions_error none = false
mentions_error (some s) = occurs (codes "error") (lower s)

unfoldable pub check_no_new_failures : Incident → Check
check_no_new_failures i =
    if truthy i.outcome_message && mentions_error i.outcome_message
    then create_check_at no_new_failures false warning
    else create_check no_new_failures true

unfoldable pub check_service_health : Incident → Check
unfolding is_resolved
check_service_health i =
    if not (truthy (get_service_name i))
    then create_check_at service_health true info
    else if is_resolved i
    then create_check service_health true
    else create_check_at service_health false warning

abbrev much_longer : ℕ → Option RemediationPlan → Bool
much_longer seconds none = false
much_longer seconds (some p) =
    not (p.estimated_duration_seconds == 0) && ltb (p.estimated_duration_seconds * 2) seconds

unfoldable pub check_execution_time : ℕ → Incident → Option RemediationPlan → Check
check_execution_time timeout i p = elim (calculate_remediation_duration i) [
  | none ↦ create_check_at execution_time true info
  | some seconds ↦
      if ltb timeout seconds
      then create_check_at execution_time false error
      else if much_longer seconds p
      then create_check_at execution_time false warning
      else create_check execution_time true
]

abbrev is_set {ℓ} : {A : Type ℓ} → Option A → Bool
is_set none = false
is_set (some a) = true

unfoldable pub check_outcome_consistency : Incident → Check
unfolding is_resolved is_failed
check_outcome_consistency i =
    if is_set i.resolved_at && not (is_set i.outcome)
    then create_check_at outcome_consistency false warning
    else if is_resolved i && not (is_set i.resolved_at)
    then create_check_at outcome_consistency false warning
    else if is_failed i && is_resolved i
    then create_check_at outcome_consistency false warning
    else create_check outcome_consistency true

abbrev pub checks_with : ℕ → Incident → Option RemediationPlan → Check → List Check
checks_with timeout i p executed =
    check_incident_resolved i
    ∷ executed
    ∷ check_no_new_failures i
    ∷ check_service_health i
    ∷ check_execution_time timeout i p
    ∷ check_outcome_consistency i
    ∷ []

-- The checks in their order, of which the second may raise.
unfoldable pub post_checks : ℕ → Incident → Option RemediationPlan → Option (List Check)
post_checks timeout i p = elim (check_execution_success i) [
  | none ↦ none
  | some executed ↦ some (checks_with timeout i p executed)
]

abbrev pub verdict : List Check → ValidationResult
verdict checks =
    let r : ValidationResult = record {
      passed = errors_passed checks;
      checks = checks;
      warned = false;
    } in
    record r { warned = has_warnings r }

unfoldable pub validate_fix : ℕ → Incident → Option RemediationPlan → Option ValidationResult
unfolding post_checks
validate_fix timeout i p = elim (post_checks timeout i p) [
  | none ↦ none
  | some checks ↦ some (verdict checks)
]

abbrev pub result_check : Bool → Check
result_check ok =
    if ok
    then create_check remediation_result_success true
    else create_check_at remediation_result_success false error

abbrev pub validated_check : Bool → Check
validated_check ok =
    if ok then create_check result_validated true else create_check_at result_validated false error

-- The checks of a result go before those of `validate`.
abbrev pub with_result : RemediationResult → Option ValidationResult → Option ValidationResult
with_result r none = none
with_result r (some standard) =
    let checks =
      result_check r.success ∷ validated_check r.post_validation_passed ∷ standard.checks in
    some (record { passed = errors_passed checks; checks = checks; warned = false })

unfoldable pub validate_with_result :
    ℕ → Incident → RemediationResult → Option RemediationPlan → Option ValidationResult
validate_with_result timeout i r p = with_result r (validate_fix timeout i p)
