-- ===== src/Processor.antt =====
-- app/services/event_processor.py: what is done with an incident once its decision is made, in
-- `process` and in `_process_background`. Analysis, notifications and the rows of the database are
-- left out; the texts of reasons, results and exceptions are arguments.
pub mod Paths
mod Tests
use devflowfix.Base.{ℕ, Bool, true, false, not, ◌&&◌, Option, none, some, String, if◌then◌else◌}
use devflowfix.Core.Enums.{ActionType, Outcome, Environment, ApprovalStatus, is_production}
use devflowfix.Core.Context.{ExecutionContext}
use devflowfix.Core.Incident.{
  Incident, get_namespace, mark_resolved, start_remediation, end_remediation,
}
use devflowfix.Core.Plan.{RemediationResult}
use devflowfix.Limits.{Tracker}
use devflowfix.Strategy.{AnalysisResult, DecisionResult, Reason}
use devflowfix.Remediator.{Service, Clock, Remediator}
use devflowfix.Remediator.Entry.{execute}

pub data Stage : Type 0 where
  decision awaiting_approval completed error : Stage

pub record ProcessingResult : Type 0 where
  pub success : Bool
  pub stage : Stage
  pub outcome : Outcome

-- The readings of the clock that mark the incident.
pub record Stamps : Type 0 where
  pub started : ℕ
  pub start_updated : ℕ
  pub ended : ℕ
  pub end_updated : ℕ
  pub resolved : ℕ
  pub updated : ℕ
  pub measured : ℕ

-- What the processor is built with, and the texts.
pub record Parts : Type 0 where
  pub service : Service
  pub create : ActionType → Remediator
  pub reason_text : Reason → String
  pub result_text : RemediationResult → Option String
  pub error_text : String

-- The incident, the tracker of the remediator service, and what is answered.
pub record Processed : Type 0 where
  pub incident : Incident
  pub tracker : Tracker
  pub answer : ProcessingResult

-- `_create_context`: production asks for approval
unfoldable pub create_context : Environment → Incident → ExecutionContext
create_context environment i = record {
  environment = environment;
  dry_run = false;
  requires_approval = is_production environment;
  approval_status = ApprovalStatus.not_required;
  approver = none;
  namespace = get_namespace i;
  enable_rollback = true;
}

unfoldable pub request_approval : ℕ → Incident → Incident
request_approval now i = record i {
  outcome = some Outcome.pending;
  outcome_message = some "Awaiting human approval";
  updated_at = now;
}

unfoldable pub finalize : Parts → Stamps → RemediationResult → Incident → Incident
finalize ps t r i =
    end_remediation t.ended t.end_updated t.resolved t.updated t.measured r.success
      (ps.result_text r) i

unfoldable pub handle_failure : Parts → Stamps → Incident → Incident
handle_failure ps t i =
    mark_resolved t.resolved t.updated t.measured Outcome.failed (some ps.error_text) i

abbrev settle : Parts → Stamps → Incident → Tracker → Option RemediationResult → Processed
settle ps t i s none = record {
  incident = handle_failure ps t i;
  tracker = s;
  answer = record { success = false; stage = error; outcome = Outcome.failed };
}
settle ps t i s (some r) = record {
  incident = finalize ps t r i;
  tracker = s;
  answer = record { success = r.success; stage = completed; outcome = r.outcome };
}

-- `_remediate` and `_finalize`, or `_handle_failure` where the service raised
unfoldable pub remediate :
    Parts → Stamps → Clock → AnalysisResult → ExecutionContext → Incident → Tracker → Processed
unfolding finalize handle_failure
remediate ps t k a ctx i s =
    let i' = start_remediation t.started t.start_updated i in
    let (j, (s', r)) = execute ps.service k ps.create a ctx i' s in settle ps t j s' r

-- Where the decision is not to fix, `_escalate` or the mark that is made in its place
unfoldable pub leave_open : Parts → Stamps → DecisionResult → Incident → Incident
leave_open ps t d i =
    if d.escalate
    then mark_resolved t.resolved t.updated t.measured Outcome.escalated
        (some (ps.reason_text d.reason)) i
    else mark_resolved t.resolved t.updated t.measured Outcome.pending
        (some (ps.reason_text d.reason)) i

-- `process`, from its decision on
unfoldable pub process :
    Parts
    → Stamps
    → Clock
    → AnalysisResult
    → ExecutionContext
    → DecisionResult
    → Incident
    → Tracker
    → Processed
unfolding leave_open
process ps t k a ctx d i s =
    if not d.should_auto_fix
    then record {
      incident = leave_open ps t d i;
      tracker = s;
      answer = record {
        success = true;
        stage = decision;
        outcome = if d.escalate then Outcome.escalated else Outcome.pending;
      };
    }
    else if d.requires_approval
    then record {
      incident = request_approval t.updated i;
      tracker = s;
      answer = record { success = true; stage = awaiting_approval; outcome = Outcome.pending };
    }
    else remediate ps t k a ctx i s

-- `_process_background`, from its decision on. It answers nothing.
unfoldable pub process_background :
    Parts
    → Stamps
    → Clock
    → AnalysisResult
    → ExecutionContext
    → DecisionResult
    → Incident
    → Tracker
    → Incident × Tracker
unfolding leave_open
process_background ps t k a ctx d i s =
    if d.should_auto_fix && not d.requires_approval
    then (let r = remediate ps t k a ctx i s in (r.incident, r.tracker))
    else if d.requires_approval
    then (request_approval t.updated i, s)
    else (leave_open ps t d i, s)
