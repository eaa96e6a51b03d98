-- ===== src/Intake/Events.antt =====
-- The events of GitHub that app/api/v1/webhook_payloads.py reads, and the payloads that
-- app/services/event_processor.py reads.
use devflowfix.Base.{Option, String, Dict}

-- The part of a repository that both kinds of events read.
pub record Repository : Type 0 where
  pub full_name : Option String
  pub name : Option String
  pub id : Option String
  pub default_branch : Option String

pub record WorkflowEvent : Type 0 where
  pub repository : Repository
  pub name : Option String
  pub status : Option String
  pub conclusion : Option String
  pub head_branch : Option String
  pub head_sha : Option String
  pub html_url : Option String
  pub workflow_id : Option String
  pub id : Option String
  pub run_number : Option String
  pub commit_message : Option String
  pub author : Option String
  pub event : Option String
  pub logs_url : Option String

-- The branch of a check run is that of its suite, or of the suite of the payload.
pub record CheckEvent : Type 0 where
  pub repository : Repository
  pub name : Option String
  pub conclusion : Option String
  pub own_branch : Option String
  pub suite_branch : Option String
  pub head_sha : Option String
  pub html_url : Option String
  pub id : Option String
  pub suite_id : Option String
  pub action : Option String
  pub details_url : Option String

-- The payload as the event processor reads it. `error` and `printed` are str() of its error and of
-- itself. A key of the context may have the value None.
pub record Received : Type 0 where
  pub severity : Option String
  pub error_log : Option String
  pub message : Option String
  pub error : Option String
  pub printed : String
  pub error_message : Option String
  pub full_name : Option String
  pub workflow : Option String
  pub head_branch : Option String
  pub head_sha : Option String
  pub run_id : Option String
  pub object_namespace : Option String
  pub object_name : Option String
  pub object_kind : Option String
  pub reason : Option String
  pub application : Option String
  pub revision : Option String
  pub health : Option String
  pub context : Dict (Option String)

pub data GithubEvent : Type 0 where
  workflow_run : WorkflowEvent → GithubEvent
  check_run : CheckEvent → GithubEvent
