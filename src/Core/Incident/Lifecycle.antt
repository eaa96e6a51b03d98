-- ===== src/Core/Incident/Lifecycle.antt =====
-- app/core/models/incident.py: the life of an incident.
use devflowfix.Base.{ℕ, ◌≡◌, not, Bool, true, false, Option, none, some, String, arith}
use devflowfix.Core.Enums.{Outcome}
use devflowfix.Core.Incident.{
  Incident, seconds_between, is_resolved, is_failed, is_pending, calculate_duration,
  calculate_remediation_duration, mark_resolved, start_remediation, end_remediation,
}

-- A remediation that starts and ends: the incident is resolved exactly if it succeeded and failed
-- exactly if not, it is no longer pending, both ends are on record with the whole seconds between
-- them (0 if the clock ran backwards), and an incident without a resolution time gets the seconds
-- from its own time to the resolution.
remediation_recorded :
    (s₁ s₂ t₁ t₂ t₃ t₄ t₅ now : ℕ) (success : Bool) (message : Option String) (i : Incident)
    → i.resolution_time_seconds ≡ none
    → let r = end_remediation t₁ t₂ t₃ t₄ t₅ success message (start_remediation s₁ s₂ i) in
      (is_resolved r ≡ success)
      × (is_failed r ≡ not success)
      × (is_pending r ≡ false)
      × (r.remediation_executed ≡ true)
      × (calculate_remediation_duration r ≡ some (seconds_between s₁ t₁))
      × (calculate_duration now r ≡ seconds_between i.timestamp t₃)
unfolding end_remediation start_remediation is_resolved is_failed is_pending
    calculate_remediation_duration
remediation_recorded s₁ s₂ t₁ t₂ t₃ t₄ t₅ now success message i e = ground arith

-- Once an incident has a resolution time, resolving it again changes its outcome and the time of its
-- resolution but keeps the old duration.
mark_resolved_keeps :
    (t₁ t₂ t₃ now seconds : ℕ) (o : Outcome) (message : Option String) (i : Incident)
    → i.resolution_time_seconds ≡ some seconds
    → let r = mark_resolved t₁ t₂ t₃ o message i in
      (r.outcome ≡ some o) × (r.resolved_at ≡ some t₁) × (calculate_duration now r ≡ seconds)
unfolding mark_resolved
mark_resolved_keeps t₁ t₂ t₃ now seconds o message i e = ground arith
