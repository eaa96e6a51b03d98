-- ===== src/Remediator/Success.antt =====
-- app/services/remediator.py: when a fix is reported as a success.
use devflowfix.Base.{
  ◌≡◌, ◌↔◌, ◌≢◌, refl, Bool, true, false, not, ◌&&◌, ◌||◌, Option, none, some, List, arith,
}
use devflowfix.Validation.{ValidationResult}
use devflowfix.Core.Enums.{Outcome}
use devflowfix.Core.Incident.{Incident, service_key}
use devflowfix.Core.Plan.{RemediationPlan, RemediationResult, LogEntry, needs_rollback}
use devflowfix.Limits.{Tracker, validate}
use devflowfix.Limits.Verdict.{HasUniqueKeys, InOrder, Allows, validate_iff}
use devflowfix.PreRemediation.{validate_plan}
use devflowfix.PreRemediation.Verdict.{Ready, validate_plan_iff}
use devflowfix.PostRemediation.{validate_fix}
use devflowfix.PostRemediation.Verdict.{IsConfirmed, confirms, validate_fix_iff}
use devflowfix.Remediator.{
  Service, Flags, Clock, Execution, completed, crashed, Remediator, Began, refused, running,
  failure, workflow_failure, begin, execution_failed, unconfirmed, handle_rollback, conclude,
  finish, execute_remediation, continue_,
}

-- The answer of a call that returned and reports success.
unfoldable pub succeeded : Option RemediationResult → Bool
succeeded none = false
succeeded (some r) = r.success

unfoldable pub worked : Execution → Bool
worked (completed r) = r.success
worked crashed = false

unfoldable pub started : Began → Bool
started (refused r) = false
started (running logs) = true

false_of : (b : Bool) → ¬ (b ≡ true) → b ≡ false
false_of b h = ground (arith, h)

or_of : (b c : Bool) → (b ≡ false → c ≡ true) → (b || c) ≡ true
or_of b c h = ground arith

module _ (sv : Service) (f : Flags) (k : Clock) (i : Incident) (p : RemediationPlan)
    (rem : Remediator) where
  conclude-success :
      (r : RemediationResult) (logs : List LogEntry)
      → (conclude sv f i p r logs).success ≡ (
          r.success
          && (f.skip_post_validation
              || confirms (validate_fix sv.remediation_timeout_seconds i (some p))))
  unfolding conclude execution_failed unconfirmed workflow_failure failure confirms
  conclude-success r logs = ground arith

  finish-success :
      (e : Execution) (logs : List LogEntry) (s : Tracker)
      → (finish sv f k i p e logs s).1.success ≡ (
          worked e
          && (f.skip_post_validation
              || confirms (validate_fix sv.remediation_timeout_seconds i (some p))))
  unfolding finish workflow_failure failure worked
  finish-success crashed logs s = refl
  finish-success (completed r) logs s = conclude-success r _

  abbrev post_ok : Bool
  post_ok =
      f.skip_post_validation || confirms (validate_fix sv.remediation_timeout_seconds i (some p))

  continue-success :
      (b : Began) (s : Tracker)
      → ((r : RemediationResult) → b ≡ refused r → r.success ≡ false)
      → (continue_ sv f k i p rem s b).1.success ≡ (started b && (worked (rem.run i p) && post_ok))
  unfolding started
  continue-success (refused r) s h = h r refl
  continue-success (running logs) s h = finish-success (rem.run i p) logs s

  begin-started :
      (s : Tracker)
      → started (begin sv f k i p rem.get_action_type s).1 ≡ (
          (f.skip_pre_validation || (validate_plan sv.thresholds sv.blacklist i (some p)).passed)
          && (f.skip_blast_radius_check
              || (validate sv.limits k.readings (service_key i) s).1.passed))
  unfolding begin started
  begin-started s = ground arith

  pub begin-refused :
      (s : Tracker) (r : RemediationResult)
      → (begin sv f k i p rem.get_action_type s).1 ≡ refused r
      → r.success ≡ false
  unfolding begin failure
  begin-refused s r h = ground arith

  execute-success :
      (s : Tracker)
      → succeeded (execute_remediation sv f k i p rem s).1 ≡ (
          not f.db
          && (started (begin sv f k i p rem.get_action_type s).1
              && (worked (rem.run i p) && post_ok)))
  unfolding execute_remediation succeeded
  execute-success s = ground (
    arith,
    continue-success (begin sv f k i p rem.get_action_type s).1
        (begin sv f k i p rem.get_action_type s).0 (begin-refused s),
  )

  -- What must hold for a fix to be reported as a success.
  pub record Succeeds (s : Tracker) : Type 0 where
    pub no_session : f.db ≡ false
    pub ready : f.skip_pre_validation ≡ false → Ready sv.thresholds sv.blacklist i p
    pub allowed : f.skip_blast_radius_check ≡ false → Allows sv.limits k.readings (service_key i) s
    pub works : worked (rem.run i p) ≡ true
    pub is_confirmed : f.skip_post_validation ≡ false → IsConfirmed sv.remediation_timeout_seconds i

  -- A fix is reported as a success exactly where no database session was given, the incident and the
  -- plan are ready, the limits allow a fix of the service, the remediator returned a success, and the
  -- incident was already recorded as executed and successful, within the timeout, before the service
  -- returned; each of the three validations only where its flag does not skip it.
  pub execute_remediation_iff :
      (s : Tracker)
      → HasUniqueKeys s
      → InOrder k.readings
      → (succeeded (execute_remediation sv f k i p rem s).1 ≡ true) ↔ Succeeds s
  execute_remediation_iff s u o =
      let pre = (validate_plan_iff sv.thresholds sv.blacklist i p).0 in
      let blast = validate_iff sv.limits k.readings (service_key i) s u o in
      let post = (validate_fix_iff sv.remediation_timeout_seconds i (some p)).0 in
      let e = execute-success s in
      let b = begin-started s in
      (
        λ h. record {
          no_session = ground (arith, e);
          ready = λ a. pre.0 (ground (arith, e, b));
          allowed = λ a. blast.0 (ground (arith, e, b));
          works = ground (arith, e);
          is_confirmed = λ a. post.0 (ground (arith, e));
        },
        λ h.
            let x = or_of _ _ (λ a. pre.1 (h.ready a)) in
            let y = or_of _ _ (λ a. blast.1 (h.allowed a)) in
            let z = or_of _ _ (λ a. post.1 (h.is_confirmed a)) in
            ground (arith, e, b, x, y, z, h.no_session, h.works),
      )

  -- With validation after the fix, no fix of an incident whose outcome is not success before it is
  -- ever reported as a success, whatever the remediator does.
  pub open_incident_fails :
      (s : Tracker)
      → f.skip_post_validation ≡ false
      → i.outcome ≢ some Outcome.success
      → succeeded (execute_remediation sv f k i p rem s).1 ≡ false
  open_incident_fails s h n =
      let post = (validate_fix_iff sv.remediation_timeout_seconds i (some p)).0 in
      let e = execute-success s in
      let q = false_of _ (λ h. n (post.0 h).resolved) in ground (arith, e, q)

  -- No rollback is ever done: a failed execution that asks for one, and a successful one that the
  -- validation after it did not pass and whose plan asks for one, are reported as still needing it.
  rollback_never_done :
      (r : RemediationResult) (v : ValidationResult) (logs : List LogEntry)
      → (r.success ≡ false
          → r.rollback_required ≡ true
          → needs_rollback (conclude sv f i p r logs) ≡ true)
        × (r.success ≡ true
            → f.skip_post_validation ≡ false
            → validate_fix sv.remediation_timeout_seconds i (some p) ≡ some v
            → v.passed ≡ false
            → p.requires_rollback_snapshot ≡ true
            → needs_rollback (conclude sv f i p r logs) ≡ true)
  unfolding conclude execution_failed unconfirmed handle_rollback needs_rollback
  rollback_never_done r v logs = ground arith
