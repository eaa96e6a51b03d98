-- ===== src/PostRemediation/Verdict.antt =====
-- app/domain/validators/post_remediation.py: which incidents pass.
use devflowfix.Base.{
  ℕ, ◌≤◌, ◌≡◌, ◌↔◌, refl, Bool, true, false, Option, none, some, List, ◌&&◌, not, ltb, arith,
}
use devflowfix.Validation.{
  Check, ValidationResult, create_check, create_check_at, error, execution_success, is_tolerable,
  errors_passed, errors_passed-cons, errors_passed-nil,
}
use devflowfix.Core.Enums.{Outcome}
use devflowfix.Core.Incident.{Incident, is_failed, is_resolved, calculate_remediation_duration}
use devflowfix.Core.Plan.{RemediationPlan, RemediationResult}
use devflowfix.PostRemediation.{
  check_incident_resolved, check_execution_success, check_no_new_failures, check_service_health,
  check_execution_time, check_outcome_consistency, checks_with, verdict, with_result, post_checks,
  validate_fix, validate_with_result, result_check, validated_check,
}

-- A call that returned a result that passed.
unfoldable pub confirms : Option ValidationResult → Bool
confirms none = false
confirms (some r) = r.passed

-- What the validator takes for a fix that worked.
pub record IsConfirmed (timeout : ℕ) (i : Incident) : Type 0 where
  pub executed : i.remediation_executed ≡ true
  pub resolved : i.outcome ≡ some Outcome.success
  pub in_time : (seconds : ℕ) → calculate_remediation_duration i ≡ some seconds → seconds ≤ timeout

resolved_tolerable : (i : Incident) → is_tolerable (check_incident_resolved i) ≡ is_resolved i
unfolding check_incident_resolved
resolved_tolerable i = ground arith

new_failures_tolerable : (i : Incident) → is_tolerable (check_no_new_failures i) ≡ true
unfolding check_no_new_failures
new_failures_tolerable i = ground arith

health_tolerable : (i : Incident) → is_tolerable (check_service_health i) ≡ true
unfolding check_service_health
health_tolerable i = ground arith

abbrev within : ℕ → Option ℕ → Bool
within timeout none = true
within timeout (some seconds) = not (ltb timeout seconds)

time_tolerable :
    (timeout : ℕ) (i : Incident) (p : Option RemediationPlan)
    → is_tolerable (check_execution_time timeout i p)
      ≡ within timeout (calculate_remediation_duration i)
unfolding check_execution_time
time_tolerable timeout i p = ground arith

consistency_tolerable : (i : Incident) → is_tolerable (check_outcome_consistency i) ≡ true
unfolding check_outcome_consistency
consistency_tolerable i = ground arith

within_iff :
    (timeout : ℕ) (o : Option ℕ)
    → (within timeout o ≡ true) ↔ ((seconds : ℕ) → o ≡ some seconds → seconds ≤ timeout)
within_iff timeout none = (λ h s e. cc, λ h. refl)
within_iff timeout (some s) = (λ h t e. ground arith, λ h. ground (arith, h s refl))

and-true : (b : Bool) → (b && true) ≡ b
and-true b = ground arith

checks_with-passed :
    (timeout : ℕ) (i : Incident) (p : Option RemediationPlan) (executed : Check)
    → errors_passed (checks_with timeout i p executed) ≡ (
        is_resolved i
        && (is_tolerable executed && within timeout (calculate_remediation_duration i)))
checks_with-passed timeout i p executed = simp (
  errors_passed-cons, resolved_tolerable, new_failures_tolerable, health_tolerable, time_tolerable,
  consistency_tolerable, errors_passed-nil, and-true,
)

-- The verdict as one Boolean, where an exception counts as no.
validate_fix-verdict :
    (timeout : ℕ) (i : Incident) (p : Option RemediationPlan)
    → confirms (validate_fix timeout i p) ≡ (
        is_resolved i
        && (i.remediation_executed && within timeout (calculate_remediation_duration i)))
unfolding validate_fix post_checks check_execution_success is_resolved is_failed confirms
validate_fix-verdict timeout i p = ground (
  arith,
  checks_with-passed timeout i p (create_check execution_success true),
  checks_with-passed timeout i p (create_check_at execution_success false error),
)

validate_fix-raises :
    (timeout : ℕ) (i : Incident) (p : Option RemediationPlan)
    → i.remediation_executed ≡ true
    → i.outcome ≡ none
    → validate_fix timeout i p ≡ none
unfolding validate_fix post_checks check_execution_success
validate_fix-raises timeout i p h e = ground arith

-- The validator of executed fixes passes exactly the incidents on which an execution is recorded,
-- whose outcome is success already, and whose recorded execution, where it has both its ends, took at
-- most the timeout. On an incident with a recorded execution and no outcome it raises.
pub validate_fix_iff :
    (timeout : ℕ) (i : Incident) (p : Option RemediationPlan)
    → ((confirms (validate_fix timeout i p) ≡ true) ↔ IsConfirmed timeout i)
      × (i.remediation_executed ≡ true → i.outcome ≡ none → validate_fix timeout i p ≡ none)
unfolding is_resolved
validate_fix_iff timeout i p =
    let e = validate_fix-verdict timeout i p in
    let w = within_iff timeout (calculate_remediation_duration i) in
    (
      (
        λ h. record {
          executed = ground (arith, e);
          resolved = ground (arith, e);
          in_time = w.0 (ground (arith, e));
        },
        λ h. let k = w.1 h.in_time in ground (arith, e, h.executed, h.resolved),
      ),
      validate_fix-raises timeout i p,
    )

result_tolerable : (ok : Bool) → is_tolerable (result_check ok) ≡ ok
result_tolerable ok = ground arith

validated_tolerable : (ok : Bool) → is_tolerable (validated_check ok) ≡ ok
validated_tolerable ok = ground arith

abbrev verdict_of : Option (List Check) → Option ValidationResult
verdict_of o = elim o [ none ↦ none | some checks ↦ some (verdict checks) ]

with_result-verdict :
    (r : RemediationResult) (o : Option (List Check))
    → confirms (with_result r (verdict_of o))
      ≡ (r.success && (r.post_validation_passed && confirms (verdict_of o)))
unfolding confirms
with_result-verdict r none = ground arith
with_result-verdict r (some cs) = simp (errors_passed-cons, result_tolerable, validated_tolerable)

with_result-passed :
    (timeout : ℕ) (i : Incident) (r : RemediationResult) (p : Option RemediationPlan)
    → confirms (validate_with_result timeout i r p)
      ≡ (r.success && (r.post_validation_passed && confirms (validate_fix timeout i p)))
unfolding validate_with_result validate_fix
with_result-passed timeout i r p = with_result-verdict r (post_checks timeout i p)

with_result-raises :
    (r : RemediationResult) (o : Option ValidationResult) → (with_result r o ≡ none) ↔ (o ≡ none)
with_result-raises r none = (λ h. refl, λ h. refl)
with_result-raises r (some v) = ground arith

-- `validate_with_result` passes exactly where the result says that the fix succeeded and that it was
-- validated, and `validate` passes as well; it raises exactly where `validate` raises.
validate_with_result_iff :
    (timeout : ℕ) (i : Incident) (r : RemediationResult) (p : Option RemediationPlan)
    → ((confirms (validate_with_result timeout i r p) ≡ true)
        ↔ (r.success ≡ true)
          × (r.post_validation_passed ≡ true)
          × (confirms (validate_fix timeout i p) ≡ true))
      × ((validate_with_result timeout i r p ≡ none) ↔ (validate_fix timeout i p ≡ none))
unfolding validate_with_result
validate_with_result_iff timeout i r p =
    (ground (arith, with_result-passed timeout i r p), with_result-raises r _)
