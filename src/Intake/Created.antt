-- ===== src/Intake/Created.antt =====
-- app/services/event_processor.py: the incident that is made of a payload. In a context a key with
-- the value None is read as one that is missing; for "environment" the code would raise there.
use devflowfix.Base.{
  ℕ, false, Option, none, some, List, [], ◌∷◌, String, Dict, insert, erase, lower, codes,
  same_codes, if◌then◌else◌,
}
use devflowfix.Core.Enums.{IncidentSource, Severity}
use devflowfix.Core.Incident.{Incident}
use devflowfix.Intake.{or_text, Received}

abbrev pub severity_named : List ℕ → Severity
severity_named s =
    if same_codes s (codes "critical")
    then Severity.critical
    else if same_codes s (codes "high")
    then Severity.high
    else if same_codes s (codes "medium")
    then Severity.medium
    else if same_codes s (codes "low")
    then Severity.low
    else Severity.medium

unfoldable pub extract_severity : Received → Severity
extract_severity p = severity_named (lower (or_text p.severity "medium"))

unfoldable pub extract_error_log : Received → String
extract_error_log p = or_text p.error_log (or_text p.message (or_text p.error p.printed))

abbrev pub put : String → Option String → Dict String → Dict String
put k none d = d
put k (some v) d = (k, v) ∷ d

abbrev pub own_context : IncidentSource → Received → Dict String
own_context IncidentSource.github p = put "repository" p.full_name (
    put "workflow" p.workflow
      (put "branch" p.head_branch (put "commit" p.head_sha (put "run_id" p.run_id []))))
own_context IncidentSource.kubernetes p =
    put "namespace" p.object_namespace
      (put "pod" p.object_name (put "kind" p.object_kind (put "reason" p.reason [])))
own_context IncidentSource.argocd p =
    put "application" p.application
      (("namespace", "argocd") ∷ put "revision" p.revision (put "health" p.health []))
own_context _ p = []

-- context.update(payload["context"])
unfoldable pub update : Dict String → Dict (Option String) → Dict String
update d [] = d
update d ((k, none) ∷ e) = update (erase k d) e
update d ((k, some v) ∷ e) = update (insert k v d) e

unfoldable pub extract_context : Received → IncidentSource → Dict String
extract_context p source = update (own_context source p) p.context

-- `_create_incident`, at two readings of the clock.
unfoldable pub create_incident : ℕ → ℕ → Received → IncidentSource → Incident
unfolding extract_severity extract_error_log extract_context
create_incident timestamp updated_at p source = record {
  timestamp = timestamp;
  updated_at = updated_at;
  resolved_at = none;
  source = source;
  severity = extract_severity p;
  failure_type = none;
  error_log = extract_error_log p;
  error_message = p.error_message;
  context = extract_context p source;
  fixability = none;
  confidence = none;
  remediation_executed = false;
  remediation_start_time = none;
  remediation_end_time = none;
  outcome = none;
  outcome_message = none;
  resolution_time_seconds = none;
  approved_by = none;
  approved_timestamp = none;
  tags = [];
}
