-- ===== src/Core/Incident.antt =====
-- app/core/models/incident.py: the incident record with its life cycle. A dictionary of the source
-- with text values is a `Dict String`; a time is a number of microseconds.
pub mod Lifecycle
use devflowfix.Base.{
  ℕ, ◌-◌, ◌/◌, Bool, true, false, Option, none, some, List, [], ◌∷◌, ◌++◌, String, Dict, lookup,
  truthy, str_eq, any, if◌then◌else◌,
}
use devflowfix.Core.Enums.{IncidentSource, Severity, Outcome, Fixability, FailureType}

pub record Incident : Type 0 where
  pub timestamp : ℕ
  pub updated_at : ℕ
  pub resolved_at : Option ℕ
  pub source : IncidentSource
  pub severity : Severity
  pub failure_type : Option FailureType
  pub error_log : String
  pub error_message : Option String
  pub context : Dict String
  pub fixability : Option Fixability
  pub confidence : Option ℕ
  pub remediation_executed : Bool
  pub remediation_start_time : Option ℕ
  pub remediation_end_time : Option ℕ
  pub outcome : Option Outcome
  pub outcome_message : Option String
  pub resolution_time_seconds : Option ℕ
  pub approved_by : Option String
  pub approved_timestamp : Option ℕ
  pub tags : List String

-- max(0, int((end - start).total_seconds())); the subtraction stops at 0 as the maximum does.
abbrev pub seconds_between : ℕ → ℕ → ℕ
seconds_between start stop = (stop - start) / 1000000

abbrev or_else {ℓ} : {A : Type ℓ} → Option A → A → A
or_else none d = d
or_else (some a) d = a

unfoldable pub is_resolved : Incident → Bool
is_resolved i = elim i.outcome [
  | none ↦ false
  | some o ↦ (elim o [ Outcome.success ↦ true | _ ↦ false ])
]

unfoldable pub is_failed : Incident → Bool
is_failed i = elim i.outcome [
  | none ↦ false
  | some o ↦ (elim o [ Outcome.failed ↦ true | _ ↦ false ])
]

unfoldable pub is_pending : Incident → Bool
is_pending i = elim i.outcome [
  | none ↦ true
  | some o ↦ (elim o [ Outcome.pending ↦ true | _ ↦ false ])
]

-- `now` is read only where the incident is not resolved.
unfoldable pub calculate_duration : ℕ → Incident → ℕ
calculate_duration now i = elim i.resolution_time_seconds [
  | some t ↦ t
  | none ↦ seconds_between i.timestamp (or_else i.resolved_at now)
]

unfoldable pub calculate_remediation_duration : Incident → Option ℕ
calculate_remediation_duration i = elim i.remediation_start_time [
  | none ↦ none
  | some start ↦ (elim i.remediation_end_time [
    | none ↦ none
    | some stop ↦ some (seconds_between start stop)
  ])
]

-- Two clock readings, then that of `calculate_duration`, which is not used.
unfoldable pub mark_resolved : ℕ → ℕ → ℕ → Outcome → Option String → Incident → Incident
unfolding calculate_duration
mark_resolved t₁ t₂ t₃ o message i =
    let r = record i {
      outcome = some o;
      outcome_message = message;
      resolved_at = some t₁;
      updated_at = t₂;
    } in
    record r { resolution_time_seconds = some (calculate_duration t₃ r) }

unfoldable pub start_remediation : ℕ → ℕ → Incident → Incident
start_remediation t₁ t₂ i = record i {
  remediation_start_time = some t₁;
  remediation_executed = true;
  updated_at = t₂;
}

unfoldable pub end_remediation : ℕ → ℕ → ℕ → ℕ → ℕ → Bool → Option String → Incident → Incident
unfolding mark_resolved
end_remediation t₁ t₂ t₃ t₄ t₅ success message i =
    let r = record i { remediation_end_time = some t₁; updated_at = t₂ } in
    if success
    then mark_resolved t₃ t₄ t₅ Outcome.success message r
    else mark_resolved t₃ t₄ t₅ Outcome.failed message r

unfoldable pub add_approval : ℕ → ℕ → String → Incident → Incident
add_approval t₁ t₂ approver i = record i {
  approved_by = some approver;
  approved_timestamp = some t₁;
  updated_at = t₂;
}

abbrev pub has_tag : String → List String → Bool
has_tag tag tags = any (str_eq tag) tags

unfoldable pub add_tag : ℕ → String → Incident → Incident
add_tag now tag i =
    if has_tag tag i.tags then i else record i { tags = i.tags ++ tag ∷ []; updated_at = now }

-- tags.remove(tag): the first occurrence
remove_first : String → List String → List String
remove_first tag [] = []
remove_first tag (t ∷ ts) = if str_eq tag t then ts else t ∷ remove_first tag ts

unfoldable pub remove_tag : ℕ → String → Incident → Incident
unfolding remove_first
remove_tag now tag i =
    if has_tag tag i.tags then record i { tags = remove_first tag i.tags; updated_at = now } else i

-- context.get("service") or context.get("app_name")
unfoldable pub get_service_name : Incident → Option String
get_service_name i =
    if truthy (lookup "service" i.context)
    then lookup "service" i.context
    else lookup "app_name" i.context

-- get_service_name() or "unknown"
unfoldable pub service_key : Incident → String
unfolding get_service_name
service_key i =
    if truthy (get_service_name i) then or_else (get_service_name i) "unknown" else "unknown"

unfoldable pub get_namespace : Incident → Option String
get_namespace i = lookup "namespace" i.context

-- context.get("environment", "prod")
unfoldable pub environment_text : Incident → String
environment_text i = or_else (lookup "environment" i.context) "prod"
