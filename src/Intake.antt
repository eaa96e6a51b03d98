-- ===== src/Intake.antt =====
-- How a failure of GitHub becomes an incident: the payload that app/api/v1/webhook_payloads.py makes
-- of an event, and the incident that app/services/event_processor.py makes of a payload. Numbers of
-- an event are given as texts; changed_files, which nothing reads, is left out.
mod Events
pub mod Created
pub mod Judged
mod Tests
pub use Events.*
use devflowfix.Base.{
  ℕ, zero, suc, Bool, false, ◌&&◌, ◌||◌, Option, none, some, [], ◌∷◌, String, Dict, insert, join,
  join_all, truthy, str_eq, if◌then◌else◌,
}

abbrev pub or_text : Option String → String → String
or_text none d = d
or_text (some s) d = s

abbrev pub is_main : String → Bool
is_main branch = str_eq branch "main" || (str_eq branch "master" || str_eq branch "production")

abbrev pub is_staging_branch : String → Bool
is_staging_branch branch = str_eq branch "staging" || str_eq branch "develop"

unfoldable pub branch_severity : String → String
branch_severity branch =
    if is_main branch then "critical" else if is_staging_branch branch then "high" else "medium"

-- f"{x}"
abbrev shown : Option String → String
shown x = or_text x "None"

-- s[:n]
unfoldable pub first_chars : ℕ → String → String
first_chars n String.[] = String.[]
first_chars zero (String.◌∷◌ c s) = String.[]
first_chars (suc n) (String.◌∷◌ c s) = String.◌∷◌ c (first_chars n s)

unfoldable pub failure_log :
    String
    → Option String
    → Option String
    → Option String
    → String
    → Option String
    → Option String
    → String
failure_log kind name conclusion full_name branch head_sha html_url = join_all "" (
    kind
    ∷ " '"
    ∷ shown name
    ∷ "' failed\nConclusion: "
    ∷ shown conclusion
    ∷ "\nRepository: "
    ∷ shown full_name
    ∷ "\nBranch: "
    ∷ branch
    ∷ "\nCommit: "
    ∷ first_chars 8 (or_text head_sha "")
    ∷ "\nURL: "
    ∷ shown html_url
    ∷ [])

-- A payload of which only these parts are there.
abbrev payload_with : String → String → String → Dict (Option String) → Received
payload_with severity log message context = record {
  severity = some severity;
  error_log = some log;
  message = none;
  error = none;
  printed = "";
  error_message = some message;
  full_name = none;
  workflow = none;
  head_branch = none;
  head_sha = none;
  run_id = none;
  object_namespace = none;
  object_name = none;
  object_kind = none;
  reason = none;
  application = none;
  revision = none;
  health = none;
  context = context;
}

unfoldable pub workflow_payload : WorkflowEvent → Received
workflow_payload w =
    let branch = or_text w.head_branch "" in
    payload_with (branch_severity branch)
      (failure_log "Workflow" w.name w.conclusion w.repository.full_name branch w.head_sha
        w.html_url)
      (join "Workflow failed: " (shown w.conclusion))
      (("repository", w.repository.full_name)
        ∷ ("repository_name", w.repository.name)
        ∷ ("repository_id", w.repository.id)
        ∷ ("workflow", w.name)
        ∷ ("workflow_id", w.workflow_id)
        ∷ ("run_id", w.id)
        ∷ ("run_number", w.run_number)
        ∷ ("branch", some branch)
        ∷ ("commit_sha", w.head_sha)
        ∷ ("commit", w.head_sha)
        ∷ ("commit_message", w.commit_message)
        ∷ ("author", w.author)
        ∷ ("event_type", some "workflow_run")
        ∷ ("trigger_event", w.event)
        ∷ ("logs_url", w.logs_url)
        ∷ ("html_url", w.html_url)
        ∷ [])

-- a or b
abbrev or_other : Option String → Option String → Option String
or_other a b = if truthy a then a else b

abbrev pub check_branch : CheckEvent → String
check_branch c =
    or_text (or_other c.own_branch (or_other c.suite_branch c.repository.default_branch)) ""

unfoldable pub check_payload : CheckEvent → Received
check_payload c =
    let branch = check_branch c in
    payload_with (branch_severity branch)
      (failure_log "Check run" c.name c.conclusion c.repository.full_name branch c.head_sha
        c.html_url)
      (join "Check run failed: " (shown c.conclusion))
      (("repository", c.repository.full_name)
        ∷ ("repository_name", c.repository.name)
        ∷ ("repository_id", c.repository.id)
        ∷ ("workflow", c.name)
        ∷ ("check_run_id", c.id)
        ∷ ("run_id", or_other c.suite_id c.id)
        ∷ ("branch", some branch)
        ∷ ("commit_sha", c.head_sha)
        ∷ ("commit", c.head_sha)
        ∷ ("event_type", some "check_run")
        ∷ ("trigger_event", c.action)
        ∷ ("html_url", c.html_url)
        ∷ ("details_url", c.details_url)
        ∷ [])

-- extract_github_payload, of the two kinds that it changes
unfoldable pub extract_github_payload : GithubEvent → Received
unfolding workflow_payload check_payload
extract_github_payload (workflow_run w) = workflow_payload w
extract_github_payload (check_run c) = check_payload c

abbrev is_text : String → Option String → Bool
is_text s none = false
is_text s (some t) = str_eq t s

abbrev has_failing_conclusion : Option String → Bool
has_failing_conclusion conclusion = is_text "failure" conclusion || is_text "timed_out" conclusion

-- Only such events are made into incidents.
unfoldable pub is_github_failure_event : GithubEvent → Bool
is_github_failure_event (workflow_run w) =
    is_text "completed" w.status
    && (has_failing_conclusion w.conclusion || is_text "action_required" w.conclusion)
is_github_failure_event (check_run c) = has_failing_conclusion c.conclusion

-- payload["context"]["user_id"] = user
unfoldable pub with_user : String → Received → Received
with_user user p = record p { context = insert "user_id" (some user) p.context }
