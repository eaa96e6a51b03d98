-- ===== src/PreRemediation/Verdict.antt =====
-- app/domain/validators/pre_remediation.py: which fixes pass the checks.
use devflowfix.Base.{
  ℕ, ◌≤◌, ◌<◌, ◌≡◌, ◌≢◌, ◌↔◌, refl, Bool, true, false, not, ◌&&◌, ◌||◌, Option, none, some, List,
  str_eq, truthy, leb, arith, eq_iff,
}
use devflowfix.Validation.{is_tolerable, errors_passed-cons, errors_passed-nil}
use devflowfix.Core.Enums.{
  Decimals, FailureType, map_failure_to_action, image_pull_backoff, production,
}
use devflowfix.Core.Incident.{Incident, environment_text}
use devflowfix.Core.Plan.{RemediationPlan, is_critical_risk}
use devflowfix.Rules.Blacklist.{Combination, contains, default_blacklist, evaluate_blacklist}
use devflowfix.Rules.Confidence.{Thresholds, evaluate_confidence, parse_environment}
use devflowfix.PreRemediation.{
  is_missing, validator_blacklist, validator_threshold, check_incident_data, check_plan_exists,
  check_confidence_threshold, check_not_blacklisted, check_environment_requirements,
  check_risk_level, check_prerequisites, pre_checks, validate_plan,
}

abbrev is_described : Incident → Bool
is_described i = not (str_eq i.error_log "") || truthy i.error_message

abbrev is_confident : ℕ → Option ℕ → Bool
is_confident threshold none = false
is_confident threshold (some x) = leb threshold x

abbrev is_listed : List Combination → RemediationPlan → Option FailureType → Bool
is_listed blacklist p none = false
is_listed blacklist p (some f) = contains (f, p.action_type) blacklist

-- What an incident and its plan must satisfy for the fix to be executed.
pub record Ready (c : Thresholds) (blacklist : List Combination) (i : Incident)
    (p : RemediationPlan) : Type 0 where
  pub described : i.error_log ≡ "" → truthy i.error_message ≡ true
  pub classified : i.failure_type ≢ none
  pub confident :
      (x : ℕ) × (i.confidence ≡ some x) × (validator_threshold c (environment_text i) ≤ x)
  pub allowed :
      (f : FailureType) → i.failure_type ≡ some f → contains (f, p.action_type) blacklist ≡ false
  pub approved : is_critical_risk p ≡ true → p.requires_approval ≡ true

module _ (c : Thresholds) (blacklist : List Combination) (i : Incident) where
  incident_tolerable :
      is_tolerable (check_incident_data i) ≡ (is_described i && not (is_missing i.failure_type))
  unfolding check_incident_data
  incident_tolerable = ground arith

  confidence_tolerable :
      is_tolerable (check_confidence_threshold c i)
      ≡ is_confident (validator_threshold c (environment_text i)) i.confidence
  unfolding check_confidence_threshold
  confidence_tolerable = ground arith

  blacklist_tolerable :
      (p : RemediationPlan)
      → is_tolerable (check_not_blacklisted blacklist i (some p))
        ≡ not (is_listed blacklist p i.failure_type)
  unfolding check_not_blacklisted
  blacklist_tolerable p = ground arith

  environment_tolerable :
      (p : Option RemediationPlan) → is_tolerable (check_environment_requirements i p) ≡ true
  unfolding check_environment_requirements
  environment_tolerable p = ground arith

risk_tolerable :
    (p : RemediationPlan)
    → is_tolerable (check_risk_level (some p)) ≡ not (is_critical_risk p && not p.requires_approval)
unfolding check_risk_level
risk_tolerable p = ground arith

prerequisites_tolerable : (p : Option RemediationPlan) → is_tolerable (check_prerequisites p) ≡ true
unfolding check_prerequisites
prerequisites_tolerable p = ground arith

and-true : (b : Bool) → (b && true) ≡ b
and-true b = ground arith

validate_plan_verdict :
    (c : Thresholds) (blacklist : List Combination) (i : Incident) (p : RemediationPlan)
    → (validate_plan c blacklist i (some p)).passed ≡ (
        (is_described i && not (is_missing i.failure_type))
        && (is_confident (validator_threshold c (environment_text i)) i.confidence
            && (not (is_listed blacklist p i.failure_type)
                && not (is_critical_risk p && not p.requires_approval))))
unfolding validate_plan pre_checks check_plan_exists
validate_plan_verdict c blacklist i p = simp (
  errors_passed-cons, incident_tolerable, confidence_tolerable, blacklist_tolerable,
  environment_tolerable, risk_tolerable, prerequisites_tolerable, errors_passed-nil, and-true,
)

confident_of :
    (threshold : ℕ) (o : Option ℕ)
    → is_confident threshold o ≡ true
    → (x : ℕ) × (o ≡ some x) × (threshold ≤ x)
confident_of threshold none h = cc
confident_of threshold (some x) h = (x, refl, ground arith)

is_listed-false :
    (blacklist : List Combination) (p : RemediationPlan) (o : Option FailureType)
    → ((f : FailureType) → o ≡ some f → contains (f, p.action_type) blacklist ≡ false)
    → is_listed blacklist p o ≡ false
is_listed-false blacklist p none h = refl
is_listed-false blacklist p (some f) h = h f refl

validate_plan-Ready :
    (c : Thresholds) (blacklist : List Combination) (i : Incident) (p : RemediationPlan)
    → Ready c blacklist i p
    → (validate_plan c blacklist i (some p)).passed ≡ true
validate_plan-Ready c blacklist i p r =
    let (x, e, l) = r.confident in
    ground (
      arith,
      validate_plan_verdict c blacklist i p,
      eq_iff i.error_log "",
      is_listed-false blacklist p i.failure_type r.allowed,
    )

validate_plan-none :
    (c : Thresholds) (blacklist : List Combination) (i : Incident)
    → (validate_plan c blacklist i none).passed ≡ false
unfolding validate_plan pre_checks check_plan_exists
validate_plan-none c blacklist i = simp errors_passed-cons (ground arith)

-- With a plan, the validation passes exactly where the incident has an error log or an error message,
-- its failure is classified, its confidence reaches the threshold of its environment's text, the
-- blacklist does not name its failure with the plan's action, and a plan of critical risk requires
-- approval. Without a plan it never passes. The checks of the environment and of the prerequisites
-- never decide.
pub validate_plan_iff :
    (c : Thresholds) (blacklist : List Combination) (i : Incident) (p : RemediationPlan)
    → (((validate_plan c blacklist i (some p)).passed ≡ true) ↔ Ready c blacklist i p)
      × ((validate_plan c blacklist i none).passed ≡ false)
validate_plan_iff c blacklist i p =
    let e = validate_plan_verdict c blacklist i p in
    (
      (
        λ h. record {
          described = λ d. ground (arith, e, eq_iff i.error_log "");
          classified = λ u. ground (arith, e);
          confident = confident_of _ i.confidence (ground (arith, e));
          allowed = λ f u. ground (arith, e);
          approved = λ u. ground (arith, e);
        },
        λ r. validate_plan-Ready c blacklist i p r,
      ),
      validate_plan-none c blacklist i,
    )

-- The blacklist rule and the validator carry the same list, so with a plan they give one verdict.
blacklists_agree :
    (i : Incident) (p : Option RemediationPlan)
    → evaluate_blacklist default_blacklist i p
      ≡ (check_not_blacklisted validator_blacklist i p).passed
unfolding evaluate_blacklist check_not_blacklisted default_blacklist validator_blacklist
blacklists_agree i none = refl
blacklists_agree i (some p) = ground arith

-- The action that `map_failure_to_action` recommends for a failure is never blacklisted for it.
map_failure_to_action_allowed :
    (f : FailureType) → contains (f, map_failure_to_action f) validator_blacklist ≡ false
unfolding contains validator_blacklist map_failure_to_action
map_failure_to_action_allowed image_pull_backoff = refl
map_failure_to_action_allowed _ = refl

-- The validator and the confidence rule read the environment differently. Where its text is none of
-- "prod", "production", "staging" and "stage" and the rule takes it for production, as it does with
-- any text that it does not know and with "PROD", a confidence from the lowest threshold up to the
-- one of production passes the validator's check and fails the rule.
environment_gap :
    (fl : Decimals) (c : Thresholds) (i : Incident) (x : ℕ)
    → environment_text i ≢ "prod"
    → environment_text i ≢ "production"
    → environment_text i ≢ "staging"
    → environment_text i ≢ "stage"
    → parse_environment (environment_text i) ≡ production
    → i.confidence ≡ some x
    → c.min_confidence ≤ x
    → x < c.production_confidence
    → ((check_confidence_threshold c i).passed ≡ true) × (evaluate_confidence fl c i ≡ false)
unfolding check_confidence_threshold validator_threshold evaluate_confidence
environment_gap fl c i x a b d e p h l u = ground (
  arith,
  eq_iff (environment_text i) "prod",
  eq_iff (environment_text i) "production",
  eq_iff (environment_text i) "staging",
  eq_iff (environment_text i) "stage",
)
