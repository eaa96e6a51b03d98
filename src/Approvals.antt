-- ===== src/Approvals.antt =====
-- app/adapters/external/slack/approvals.py: requests for approval and the clicks that answer them.
-- `handle_callback` is split where it awaits the update of the message: `check_callback` runs before
-- and `finish_callback` after, and other calls of the adapter may run between them. Messages and
-- their blocks are left out.
pub mod Interleavings
pub mod Texts
pub mod Answers
mod Tests
use Prim.Native.Char.{code}
use devflowfix.Base.{
  replace, behind, is_some, ℕ, zero, suc, ◌+◌, ◌-◌, ◌*◌, Bool, true, false, ◌&&◌, Option, none,
  some, List, [], ◌∷◌, String, Dict, lookup, insert, erase, codes, length, truthy, join, str_eq,
  ltb, ◌==◌, if◌then◌else◌,
}
use devflowfix.Core.Enums.{ApprovalStatus}
use devflowfix.Core.Incident.{Incident}
use devflowfix.Core.Plan.{RemediationPlan}

-- An entry of `_pending_approvals`; its key is the identifier of the incident.
pub record Pending : Type 0 where
  pub incident : Incident
  pub plan : RemediationPlan
  pub message_ts : Option String
  pub requested_at : ℕ
  pub timeout_at : ℕ
  pub requestor : Option String

abbrev pub Approvals : Type 0
Approvals = Dict Pending

-- Times are microseconds.
abbrev pub minute : ℕ
minute = 60000000

-- What `client.post_message` did: a response with its `ts`, or an exception.
pub data Posted : Type 0 where
  response : Option String → Posted
  failed : Posted

-- The clock is read before the message is posted, for the timeout, and after it. `false` is the
-- exception raised again.
unfoldable pub request_approval :
    ℕ
    → ℕ
    → ℕ
    → Option String
    → String
    → Incident
    → RemediationPlan
    → Posted
    → Approvals
    → Approvals × Bool
request_approval now now' timeout_minutes requestor id i p failed s = (s, false)
request_approval now now' timeout_minutes requestor id i p (response ts) s = (
  insert id
      (record {
        incident = i;
        plan = p;
        message_ts = ts;
        requested_at = now';
        timeout_at = now + timeout_minutes * minute;
        requestor = requestor;
      })
      s,
  true,
)

pub data CallbackError : Type 0 where
  no_actions unknown_action no_pending timed_out gone : CallbackError

pub record Click : Type 0 where
  pub id : String
  pub approved : Bool

-- Which button was clicked: `action_id` is "approve_" or "reject_" before the identifier.
unfoldable pub parse_action : String → Option Click
unfolding behind
parse_action action_id =
    if is_some (behind "approve_" action_id)
    then some (record { id = replace "approve_" "" action_id; approved = true })
    else if is_some (behind "reject_" action_id)
    then some (record { id = replace "reject_" "" action_id; approved = false })
    else none

pub data Checked : Type 0 where
  admitted : Click → Pending → Checked
  refused : CallbackError → Checked

abbrev pub check_pending : ℕ → Click → Option Pending → Checked
check_pending now k none = refused no_pending
check_pending now k (some p) = if ltb p.timeout_at now then refused timed_out else admitted k p

-- The part of a callback before it updates the message, on the action identifiers of its payload.
unfoldable pub check_callback : ℕ → List String → Approvals → Checked
check_callback now [] s = refused no_actions
check_callback now (action_id ∷ _) s = elim (parse_action action_id) [
  | none ↦ refused unknown_action
  | some k ↦ check_pending now k (lookup k.id s)
]

pub record User : Type 0 where
  pub username : Option String
  pub name : Option String
  pub id : Option String

abbrev or_else : Option String → String → String
or_else none d = d
or_else (some s) d = s

-- user.get("username") or user.get("name") or user.get("id", "unknown")
unfoldable pub approver_of : User → String
approver_of u =
    if truthy u.username
    then or_else u.username "unknown"
    else if truthy u.name
    then or_else u.name "unknown"
    else or_else u.id "unknown"

-- What the remediation callback did: it returned, with its "success", or raised.
pub data Run : Type 0 where
  returned : Bool → Run
  raised : Run

pub record ApprovalResponse : Type 0 where
  pub incident_id : String
  pub approval_status : ApprovalStatus
  pub approver : String
  pub approved_at : ℕ
  pub executed : Bool
  pub execution_success : Option Bool

abbrev run_callback : Option Run → ApprovalResponse → ApprovalResponse
run_callback none r = r
run_callback (some (returned ok)) r = record r { executed = true; execution_success = some ok }
run_callback (some raised) r = record r { execution_success = some false }

-- Whether `finish_callback` calls the remediation callback.
unfoldable pub runs_callback : Bool → Click → Approvals → Bool
runs_callback has_callback k s = is_some (lookup k.id s) && (k.approved && has_callback)

abbrev when_run : Bool → Run → Option Run
when_run b r = if b then some r else none

abbrev pub finish_with :
    ℕ → Bool → Run → User → Click → Approvals → Option Pending → Approvals × Option ApprovalResponse
finish_with now has_callback run u k s none = (s, none)
finish_with now has_callback run u k s (some p) = (
  erase k.id s,
  some (
      run_callback (when_run (k.approved && has_callback) run) (record {
        incident_id = k.id;
        approval_status = if k.approved then ApprovalStatus.approved else ApprovalStatus.rejected;
        approver = approver_of u;
        approved_at = now;
        executed = false;
        execution_success = none;
      })),
)

-- The part of a callback after the update: the entry is deleted, with a KeyError where it is gone
-- meanwhile, and an approved fix is run if the adapter has a callback.
unfoldable pub finish_callback :
    ℕ → Bool → Run → User → Click → Approvals → Approvals × Option ApprovalResponse
finish_callback now has_callback run u k s = finish_with now has_callback run u k s (lookup k.id s)

unfoldable pub cancel_approval : String → Approvals → Approvals × Bool
cancel_approval id s = if is_some (lookup id s) then (erase id s, true) else (s, false)

-- "v0={hex}" of "v0:{timestamp}:{body}", with the keyed hash of the standard library as `hmac`
abbrev pub slack_signature : (String → String → String) → String → String → String → String
slack_signature hmac secret body timestamp =
    join "v0=" (hmac secret (join "v0:" (join timestamp (join ":" body))))

-- For a signature in ASCII; the comparison of any other one raises.
unfoldable pub verify_slack_request :
    (String → String → String) → Option String → String → String → String → Bool
verify_slack_request hmac secret body timestamp signature =
    if truthy secret
    then str_eq (slack_signature hmac (or_else secret "") body timestamp) signature
    else true

pub data Handled : Type 0 where
  answered : ApprovalResponse → Handled
  error : CallbackError → Handled

abbrev pub outcome_of : Option ApprovalResponse → Handled
outcome_of none = error gone
outcome_of (some r) = answered r

abbrev pub handle_checked : ℕ → Bool → Run → User → Approvals → Checked → Approvals × Handled
handle_checked now has_callback run u s (refused e) = (s, error e)
handle_checked now has_callback run u s (admitted k p) =
    let (s', r) = finish_callback now has_callback run u k s in (s', outcome_of r)

-- The whole of a callback during whose update nothing else runs.
unfoldable pub handle_callback :
    ℕ → ℕ → Bool → Run → User → List String → Approvals → Approvals × Handled
handle_callback now now' has_callback run u actions s =
    handle_checked now' has_callback run u s (check_callback now actions s)
