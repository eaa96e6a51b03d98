-- ===== src/Remediator.antt =====
-- app/services/remediator.py: a fix is validated, counted, executed, counted off and validated again.
-- A call is split where it awaits the remediator: `begin` runs before and `finish` after, and between
-- them other calls may change the tracker of the blast radius validator. The remediator is an
-- argument; none of app/domain/remediators changes the incident. Durations and texts are left out.
pub mod Success
pub mod Slots
pub mod Entry
pub mod Factory
pub mod Tests
use devflowfix.Base.{
  ℕ, Bool, true, false, not, ◌&&◌, Option, none, some, List, [], ◌∷◌, ◌++◌, if◌then◌else◌,
}
use devflowfix.Validation.{ValidationResult}
use devflowfix.Core.Enums.{ActionType, Outcome}
use devflowfix.Core.Incident.{Incident, service_key}
use devflowfix.Core.Plan.{
  RemediationPlan, RemediationResult, LogEntry, pre_validation, blast_radius_check, executing,
  remediation_execution, rollback, rollback_after_failure, rollback_after_validation,
  post_validation, workflow_error,
}
use devflowfix.Rules.Blacklist.{Combination}
use devflowfix.Rules.Confidence.{Thresholds}
use devflowfix.Limits.{
  Settings, Readings, Tracker, validate, record_execution_start, record_execution_end,
}
use devflowfix.PreRemediation.{validate_plan}
use devflowfix.PostRemediation.{validate_fix}

-- The service with its validators: their settings and the blacklist.
pub record Service : Type 0 where
  pub thresholds : Thresholds
  pub blacklist : List Combination
  pub limits : Settings
  pub remediation_timeout_seconds : ℕ

-- The flags of a call; `db` is whether a database session was given.
pub record Flags : Type 0 where
  pub skip_pre_validation : Bool
  pub skip_post_validation : Bool
  pub skip_blast_radius_check : Bool
  pub db : Bool

-- The readings of the clock: those of the validator, the start and the end of the execution.
pub record Clock : Type 0 where
  pub readings : Readings
  pub started : ℕ
  pub ended : ℕ

-- What `remediator.execute` did.
pub data Execution : Type 0 where
  completed : RemediationResult → Execution
  crashed : Execution

pub record Remediator : Type 0 where
  pub get_action_type : ActionType
  pub run : Incident → RemediationPlan → Execution

-- A result that the service itself builds, with its `pre_validation_passed`
unfoldable pub failure : Bool → List LogEntry → RemediationResult
failure validated logs = record {
  success = false;
  outcome = Outcome.failed;
  pre_validation_passed = validated;
  post_validation_passed = true;
  rollback_required = false;
  rollback_performed = false;
  execution_logs = logs;
}

-- The `except` branch, with the log that had been written
unfoldable pub workflow_failure : List LogEntry → RemediationResult
unfolding failure
workflow_failure logs = failure true (logs ++ workflow_error ∷ [])

-- The part before the remediator runs: the log of a fix that goes on, or the answer of one refused.
pub data Began : Type 0 where
  refused : RemediationResult → Began
  running : List LogEntry → Began

abbrev count_start :
    Service → Flags → Clock → Incident → ActionType → List LogEntry → Tracker → Tracker × Began
count_start sv f k i a logs s =
    if f.skip_blast_radius_check
    then (s, running (logs ++ executing a ∷ []))
    else (let (s', v) = validate sv.limits k.readings (service_key i) s in
        if v.passed
        then (
          record_execution_start k.started (service_key i) s',
          running (logs ++ blast_radius_check true ∷ executing a ∷ []),
        )
        else (s', refused (failure true (logs ++ blast_radius_check false ∷ []))))

unfoldable pub begin :
    Service → Flags → Clock → Incident → RemediationPlan → ActionType → Tracker → Tracker × Began
unfolding failure
begin sv f k i p a s =
    if f.skip_pre_validation
    then count_start sv f k i a [] s
    else if (validate_plan sv.thresholds sv.blacklist i (some p)).passed
    then count_start sv f k i a (pre_validation true ∷ []) s
    else (s, refused (failure false (pre_validation false ∷ [])))

-- The rollback is a placeholder that reports failure.
unfoldable pub handle_rollback : Incident → RemediationPlan → Bool
handle_rollback i p = false

unfoldable pub execution_failed :
    Incident → RemediationPlan → RemediationResult → List LogEntry → RemediationResult
unfolding handle_rollback
execution_failed i p r logs =
    if r.rollback_required
    then (let undone = handle_rollback i p in
        record r {
          rollback_performed = undone;
          execution_logs = logs ++ rollback_after_failure ∷ rollback undone ∷ [];
        })
    else record r { execution_logs = logs }

unfoldable pub unconfirmed :
    Incident → RemediationPlan → RemediationResult → List LogEntry → RemediationResult
unfolding handle_rollback
unconfirmed i p r logs =
    let q = record r {
      success = false;
      outcome = Outcome.failed;
      post_validation_passed = false;
    } in
    if p.requires_rollback_snapshot
    then (let undone = handle_rollback i p in
        record q {
          rollback_performed = undone;
          rollback_required = true;
          execution_logs = logs ++ rollback_after_validation ∷ rollback undone ∷ [];
        })
    else record q { execution_logs = logs }

-- What the validator of executed fixes made of a successful execution; `none` is its exception.
abbrev confirmed :
    Incident
    → RemediationPlan
    → RemediationResult
    → List LogEntry
    → Option ValidationResult
    → RemediationResult
confirmed i p r logs none = workflow_failure logs
confirmed i p r logs (some v) =
    if v.passed
    then record r {
      post_validation_passed = true;
      execution_logs = logs ++ post_validation true ∷ [];
    }
    else unconfirmed i p r (logs ++ post_validation false ∷ [])

-- The part after a remediator that returned, with the log that it extended
unfoldable pub conclude :
    Service
    → Flags
    → Incident
    → RemediationPlan
    → RemediationResult
    → List LogEntry
    → RemediationResult
unfolding execution_failed unconfirmed workflow_failure
conclude sv f i p r logs =
    if not r.success
    then execution_failed i p r logs
    else if f.skip_post_validation
    then record r { execution_logs = logs }
    else confirmed i p r logs (validate_fix sv.remediation_timeout_seconds i (some p))

abbrev count_end : Flags → ℕ → Incident → Bool → Tracker → Tracker
count_end f ended i success s =
    if f.skip_blast_radius_check then s else record_execution_end ended (service_key i) success s

-- The part after the remediator ran. Where it raised, the end of the execution is not recorded.
unfoldable pub finish :
    Service
    → Flags
    → Clock
    → Incident
    → RemediationPlan
    → Execution
    → List LogEntry
    → Tracker
    → Tracker × RemediationResult
unfolding conclude workflow_failure
finish sv f k i p crashed logs s = (s, workflow_failure logs)
finish sv f k i p (completed r) logs s = (
  count_end f k.ended i r.success s,
  conclude sv f i p r (logs ++ r.execution_logs ++ remediation_execution r.success ∷ []),
)

abbrev continue_ :
    Service
    → Flags
    → Clock
    → Incident
    → RemediationPlan
    → Remediator
    → Tracker
    → Began
    → Tracker × RemediationResult
continue_ sv f k i p rem s (refused r) = (s, r)
continue_ sv f k i p rem s (running logs) = finish sv f k i p (rem.run i p) logs s

-- The whole call where no other runs while the remediator does. With a database session it raises,
-- `none`, since it reads `plan.confidence`, which a plan does not have, before its `try`.
unfoldable pub execute_remediation :
    Service
    → Flags
    → Clock
    → Incident
    → RemediationPlan
    → Remediator
    → Tracker
    → Tracker × Option RemediationResult
unfolding begin finish
execute_remediation sv f k i p rem s =
    if f.db
    then (s, none)
    else (let (s', b) = begin sv f k i p rem.get_action_type s in
        let (s'', r) = continue_ sv f k i p rem s' b in (s'', some r))

-- `validate_plan` of the service: whether the plan would be let through, without executing it
unfoldable pub try_plan : Service → Readings → Incident → RemediationPlan → Tracker → Tracker × Bool
try_plan sv r i p s =
    let pre = validate_plan sv.thresholds sv.blacklist i (some p) in
    let (s', blast) = validate sv.limits r (service_key i) s in (s', pre.passed && blast.passed)
