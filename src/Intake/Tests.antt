-- ===== src/Intake/Tests.antt =====
-- A concrete failure of GitHub for app/api/v1/webhook_payloads.py.
use devflowfix.Base.{◌≡◌, none, some, leb}
use devflowfix.Core.Enums.{Environment, IncidentSource}
use devflowfix.Core.Incident.{Incident, get_namespace, service_key}
use devflowfix.Core.Tests.{ten_thousandths}
use devflowfix.Rules.Confidence.{get_threshold, evaluate_confidence}
use devflowfix.Rules.Tests.{defaults}
use devflowfix.Intake.{Repository, WorkflowEvent, workflow_run}
use devflowfix.Intake.Created.{create_incident}
use devflowfix.Intake.Judged.{received, severity_of, create_incident-judged}

abbrev billing : Repository
billing = record {
  full_name = some "acme/billing";
  name = some "billing";
  id = some "12";
  default_branch = some "main";
}

abbrev red_build : WorkflowEvent
red_build = record {
  repository = billing;
  name = some "ci";
  status = some "completed";
  conclusion = some "failure";
  head_branch = some "main";
  head_sha = some "0123456789abcdef";
  html_url = none;
  workflow_id = some "9";
  id = some "77";
  run_number = some "5";
  commit_message = none;
  author = some "ana";
  event = some "push";
  logs_url = none;
}

abbrev red_incident : Incident
red_incident =
    create_incident 1000 1001 (received "ana" (workflow_run red_build)) IncidentSource.github

create_incident-judged_example :
    (red_incident.severity ≡ severity_of "main")
    × (service_key red_incident ≡ "unknown")
    × (get_namespace red_incident ≡ none)
    × (evaluate_confidence ten_thousandths defaults (record red_incident { confidence = some 9700 })
        ≡ leb
            (get_threshold ten_thousandths defaults Environment.production (severity_of "main"))
            9700)
create_incident-judged_example =
    create_incident-judged ten_thousandths defaults 1000 1001 9700 "ana" (workflow_run red_build)
