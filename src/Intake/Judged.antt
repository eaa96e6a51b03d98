-- ===== src/Intake/Judged.antt =====
-- How the rules of app/domain/rules judge the incidents that GitHub reports.
use devflowfix.Base.{
  ℕ, ◌≡◌, refl, Bool, true, false, not, ◌&&◌, Option, none, some, [], ◌∷◌, String, Dict, lookup,
  lookup-insert, lookup-erase, insert, erase, str_eq, eq_iff, lower, same_codes, leb, if◌then◌else◌,
  Bool-cases, inl, inr, arith,
}
use devflowfix.Core.Enums.{Decimals, Environment, IncidentSource, Severity}
use devflowfix.Core.Incident.{environment_text, get_namespace, get_service_name, service_key}
use devflowfix.Rules.Confidence.{Thresholds, parse_environment, get_threshold, evaluate_confidence}
use devflowfix.Intake.{
  or_text, Received, GithubEvent, workflow_run, check_run, check_branch, is_main, is_staging_branch,
  branch_severity, workflow_payload, check_payload, extract_github_payload, with_user,
}
use devflowfix.Intake.Created.{
  severity_named, update, extract_context, extract_severity, create_incident,
}

-- A context that does not name a key leaves it as it was.
abbrev pub omits : String → Dict (Option String) → Bool
omits j [] = true
omits j ((k, v) ∷ e) = not (str_eq k j) && omits j e

lookup-update :
    (j : String) (d : Dict String) (e : Dict (Option String))
    → omits j e ≡ true
    → lookup j (update d e) ≡ lookup j d
unfolding update
lookup-update j d [] h = refl
lookup-update j d ((k, none) ∷ e) h =
    let on = lookup-update j (erase k d) e (ground (arith, h)) in
    let here = lookup-erase k j d in ground (arith, on, here, h)
lookup-update j d ((k, some v) ∷ e) h =
    let on = lookup-update j (insert k v d) e (ground (arith, h)) in
    let here = lookup-insert k j v d in ground (arith, on, here, h)

abbrev pub event_branch : GithubEvent → String
event_branch (workflow_run w) = or_text w.head_branch ""
event_branch (check_run c) = check_branch c

omits-insert :
    (j k : String) (v : Option String) (e : Dict (Option String))
    → str_eq k j ≡ false
    → omits j e ≡ true
    → omits j (insert k v e) ≡ true
unfolding insert
omits-insert j k v [] n h = ground (arith, n)
omits-insert j k v ((i, w) ∷ e) n h =
    let on = omits-insert j k v e n in ground (arith, n, h, on, eq_iff i k)

abbrev pub received : String → GithubEvent → Received
received user e = with_user user (extract_github_payload e)

unread :
    (user j : String) (e : GithubEvent)
    → str_eq "user_id" j ≡ false
    → omits j (extract_github_payload e).context ≡ true
    → lookup j (extract_context (received user e) IncidentSource.github) ≡ none
unfolding extract_context with_user extract_github_payload workflow_payload check_payload lookup
unread user j (workflow_run w) n h =
    lookup-update j [] (received user (workflow_run w)).context
      (omits-insert j "user_id" (some user) (workflow_payload w).context n h)
unread user j (check_run c) n h =
    lookup-update j [] (received user (check_run c)).context
      (omits-insert j "user_id" (some user) (check_payload c).context n h)

names_none :
    (e : GithubEvent)
    → (omits "environment" (extract_github_payload e).context ≡ true)
      × (omits "service" (extract_github_payload e).context ≡ true)
      × (omits "app_name" (extract_github_payload e).context ≡ true)
      × (omits "namespace" (extract_github_payload e).context ≡ true)
unfolding extract_github_payload workflow_payload check_payload
names_none (workflow_run w) = (refl, refl, refl, refl)
names_none (check_run c) = (refl, refl, refl, refl)

-- The severity that a branch has.
abbrev pub severity_of : String → Severity
severity_of branch =
    if is_main branch
    then Severity.critical
    else if is_staging_branch branch
    then Severity.high
    else Severity.medium

severity_back :
    (branch : String) → severity_named (lower (branch_severity branch)) ≡ severity_of branch
unfolding branch_severity lower same_codes
severity_back branch = elim (Bool-cases (is_main branch)) [
  | inl h ↦ rw h refl
  | inr h ↦ elim (Bool-cases (is_staging_branch branch)) [
    | inl k ↦ rw (h, k) refl
    | inr k ↦ rw (h, k) refl
  ]
]

extract_severity-back :
    (user : String) (e : GithubEvent)
    → extract_severity (received user e) ≡ severity_of (event_branch e)
unfolding extract_severity with_user extract_github_payload workflow_payload check_payload
extract_severity-back user (workflow_run w) = severity_back (event_branch (workflow_run w))
extract_severity-back user (check_run c) = severity_back (check_branch c)

-- An incident of a workflow run or a check run of GitHub, whatever it contains and whosoever's it is:
-- it is critical on main, master and production, high on staging and develop, and medium elsewhere; its
-- service is "unknown"; it has no namespace; and, with any confidence that it is given, the confidence
-- rule asks of it the threshold of production for its severity.
pub create_incident-judged :
    (fl : Decimals) (th : Thresholds) (t u x : ℕ) (user : String) (e : GithubEvent)
    → let i = create_incident t u (received user e) IncidentSource.github in
      (i.severity ≡ severity_of (event_branch e))
      × (service_key i ≡ "unknown")
      × (get_namespace i ≡ none)
      × (evaluate_confidence fl th (record i { confidence = some x })
          ≡ leb (get_threshold fl th Environment.production (severity_of (event_branch e))) x)
unfolding create_incident service_key get_service_name get_namespace evaluate_confidence
    environment_text parse_environment lower same_codes
create_incident-judged fl th t u x user e =
    let (environment, service, app, namespace) = names_none e in
    let severity = extract_severity-back user e in
    (
      severity,
      rw (unread user "service" e refl service, unread user "app_name" e refl app) refl,
      unread user "namespace" e refl namespace,
      rw (unread user "environment" e refl environment, severity) refl,
    )
