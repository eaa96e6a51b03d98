-- ===== src/Processor/Paths.antt =====
-- app/services/event_processor.py: which way a decision goes, and how a fix ends.
use devflowfix.Base.{
  ◌≡◌, ◌≢◌, ◌⊎◌, ◌↔◌, String, refl, Bool, true, false, not, Option, none, some, List, arith, ◌∙◌,
}
use devflowfix.Core.Enums.{Decimals, Outcome, Environment, production, is_production}
use devflowfix.Core.Context.{
  ExecutionContext, is_approved, is_safe_to_execute, approve, reject, mark_approval_timeout,
}
use devflowfix.Core.Incident.{
  Incident, is_failed, mark_resolved, start_remediation, end_remediation,
}
use devflowfix.Core.Plan.{RemediationResult}
use devflowfix.Rules.BlastRadius.{RuleTracker}
use devflowfix.Limits.{Tracker}
use devflowfix.Strategy.{Strategy, AnalysisResult, Similar, DecisionResult, decide_strategy}
use devflowfix.Decision.{Rules, Moment, decide_allowed, decide}
use devflowfix.Remediator.{Clock}
use devflowfix.Remediator.Entry.{adopt_analysis, execute, no_flags, plan_for}
use devflowfix.Remediator.Success.{succeeded, open_incident_fails}
use devflowfix.Processor.{
  Parts, Stamps, awaiting_approval, request_approval, finalize, handle_failure, create_context,
  remediate, leave_open, process, process_background, settle,
}

module _ (ps : Parts) (t : Stamps) (k : Clock) (a : AnalysisResult) (ctx : ExecutionContext)
    (d : DecisionResult) (i : Incident) (s : Tracker) where
  -- `process` and `_process_background` treat an incident alike, except where the decision is not to
  -- fix it and says that approval is required: there the background asks for the approval and leaves
  -- the time of resolution as it was, and `process` marks the incident as resolved and does not ask.
  pub paths_compared :
      let front = process ps t k a ctx d i s in
      let back = process_background ps t k a ctx d i s in
      (d.should_auto_fix ≡ true ⊎ (d.requires_approval ≡ false)
        → (front.incident ≡ back.0) × (front.tracker ≡ back.1))
      × (d.should_auto_fix ≡ false
          → d.requires_approval ≡ true
          → (front.incident.resolved_at ≡ some t.resolved)
            × (front.answer.stage ≢ awaiting_approval)
            × (back.0.resolved_at ≡ i.resolved_at)
            × (back.0.outcome_message ≡ some "Awaiting human approval"))
  unfolding process process_background leave_open request_approval mark_resolved
  paths_compared = ground arith

settle-failed :
    (ps : Parts) (t : Stamps) (i : Incident) (s : Tracker) (r : Option RemediationResult)
    → succeeded r ≡ false
    → ((settle ps t i s r).answer.success ≡ false) × (is_failed (settle ps t i s r).incident ≡ true)
unfolding finalize handle_failure mark_resolved end_remediation is_failed succeeded
settle-failed ps t i s none h = ground arith
settle-failed ps t i s (some r) h = ground arith

-- A fix that `process` starts by itself, on an incident whose outcome is not success yet, is answered
-- as a failure and leaves the incident failed, whatever the remediator did, the limits say and the
-- settings are.
pub process_fix_fails :
    (ps : Parts) (t : Stamps) (k : Clock) (a : AnalysisResult) (ctx : ExecutionContext)
    (d : DecisionResult) (i : Incident) (s : Tracker)
    → d.should_auto_fix ≡ true
    → d.requires_approval ≡ false
    → i.outcome ≢ some Outcome.success
    → let r = process ps t k a ctx d i s in
      (r.answer.success ≡ false) × (is_failed r.incident ≡ true)
unfolding process remediate execute start_remediation adopt_analysis
process_fix_fails ps t k a ctx d i s auto free open_ =
    let j = adopt_analysis a (start_remediation t.started t.start_updated i) in
    let p = plan_for a ctx in
    let fails =
      open_incident_fails ps.service no_flags k j p (ps.create p.action_type) s refl open_ in
    rw (auto, free) (settle-failed ps t j _ _ fails)

settle-stage :
    (ps : Parts) (t : Stamps) (i : Incident) (s : Tracker) (r : Option RemediationResult)
    → (settle ps t i s r).answer.stage ≢ awaiting_approval
settle-stage ps t i s none = ground arith
settle-stage ps t i s (some r) = ground arith

process-stage :
    (ps : Parts) (t : Stamps) (k : Clock) (a : AnalysisResult) (ctx : ExecutionContext)
    (d : DecisionResult) (i : Incident) (s : Tracker)
    → (d.should_auto_fix ≡ true → d.requires_approval ≡ false)
    → (process ps t k a ctx d i s).answer.stage ≢ awaiting_approval
unfolding process remediate
process-stage ps t k a ctx d i s h =
    let j = start_remediation t.started t.start_updated i in
    let e = execute ps.service k ps.create a ctx j s in
    ground (arith, h, settle-stage ps t e.0 e.1.0 e.1.1)

module _ (fl : Decimals) where
  decide-approval :
      (en : Bool) (rs : Rules) (m : Moment) (st : Strategy) (a : AnalysisResult) (i : Incident)
      (ctx : ExecutionContext) (similar : List Similar) (s : RuleTracker)
      → let d = (decide fl en rs m st a i ctx similar s).1 in
        d.should_auto_fix ≡ true → d.requires_approval ≡ ctx.requires_approval
  unfolding decide decide_allowed decide_strategy
  decide-approval en rs m st a i ctx similar s = ground arith

  -- Where the context does not ask for approval, `process` never asks for one: whatever `decide`
  -- answers, also where it answers that the fix needs approval, the stage is another one.
  process_never_asks :
      (en : Bool) (rs : Rules) (m : Moment) (st : Strategy) (a : AnalysisResult) (i : Incident)
      (ctx : ExecutionContext) (similar : List Similar) (s : RuleTracker) (ps : Parts) (t : Stamps)
      (k : Clock) (fixes : Tracker)
      → ctx.requires_approval ≡ false
      → let d = (decide fl en rs m st a i ctx similar s).1 in
        (process ps t k a ctx d i fixes).answer.stage ≢ awaiting_approval
  process_never_asks en rs m st a i ctx similar s ps t k fixes h =
      process-stage ps t k a ctx _ i fixes
        (λ auto. decide-approval en rs m st a i ctx similar s auto ∙ h)

-- A context that the processor creates is safe to execute at once exactly outside production. In
-- production it is so once it is approved, and not after a rejection or the timeout of the approval,
-- even if an approval went before.
create_context-approval :
    (e : Environment) (i : Incident) (who : String)
    → let c = create_context e i in
      ((is_safe_to_execute c ≡ true) ↔ (e ≢ production))
      × (is_safe_to_execute (approve who c) ≡ true)
      × (is_safe_to_execute (reject who (approve who c)) ≡ not (is_production e))
      × (is_safe_to_execute (mark_approval_timeout (approve who c)) ≡ not (is_production e))
unfolding create_context is_safe_to_execute approve reject mark_approval_timeout is_approved
create_context-approval e i who = ground arith
