-- ===== src/Validation.antt =====
-- app/domain/validators/base.py: single checks and their collection into a result. The messages and
-- metadata of checks are not modelled.
use devflowfix.Base.{
  Bool, true, false, not, ◌&&◌, ◌||◌, List, [], ◌∷◌, keep, all, any, ◌≡◌, refl, arith,
}

pub data CheckSeverity : Type 0 where
  info warning error : CheckSeverity

pub data CheckName : Type 0 where
  hourly_limit daily_limit concurrent_limit cooling_period service_health_score : CheckName
  incident_data_completeness plan_exists confidence_threshold blacklist_check : CheckName
  environment_check risk_level_check prerequisites_check : CheckName
  incident_resolved execution_success no_new_failures service_health execution_time : CheckName
  outcome_consistency remediation_result_success post_validation_passed : CheckName

pub record Check : Type 0 where
  pub name : CheckName
  pub passed : Bool
  pub severity : CheckSeverity

abbrev pub is_error : CheckSeverity → Bool
is_error error = true
is_error _ = false

abbrev pub is_warning : CheckSeverity → Bool
is_warning warning = true
is_warning _ = false

-- `_create_check` with its default severity, and with a given one
abbrev pub create_check : CheckName → Bool → Check
create_check n p = record { name = n; passed = p; severity = info }

abbrev pub create_check_at : CheckName → Bool → CheckSeverity → Check
create_check_at n p s = record { name = n; passed = p; severity = s }

pub record ValidationResult : Type 0 where
  pub passed : Bool
  pub checks : List Check
  -- whether a warning has been added
  pub warned : Bool

unfoldable pub has_errors : ValidationResult → Bool
has_errors r = any (λ c. not c.passed && is_error c.severity) r.checks

unfoldable pub has_warnings : ValidationResult → Bool
has_warnings r = r.warned || any (λ c. is_warning c.severity) r.checks

unfoldable pub get_failed_checks : ValidationResult → List Check
get_failed_checks r = keep (λ c. not c.passed) r.checks

-- all(check.passed for check in checks if check.severity == "error")
unfoldable pub errors_passed : List Check → Bool
errors_passed cs = all (λ c. c.passed) (keep (λ c. is_error c.severity) cs)

-- A check that does not count against the result.
abbrev pub is_tolerable : Check → Bool
is_tolerable x = not (is_error x.severity) || x.passed

pub errors_passed-cons :
    (x : Check) (xs : List Check) → errors_passed (x ∷ xs) ≡ (is_tolerable x && errors_passed xs)
unfolding errors_passed keep all
errors_passed-cons x xs = ground arith

pub errors_passed-nil : errors_passed [] ≡ true
unfolding errors_passed keep all
errors_passed-nil = refl
