-- ===== src/PullRequests.antt =====
-- app/services/event_processor.py: whether a pull request is created once an incident is analysed.
-- Of the incident's context the entries that this code reads and writes are kept. What the creator of
-- pull requests does is an argument.
pub mod Gate
mod Tests
use devflowfix.Base.{
  is_some, ℕ, Bool, true, false, not, Option, none, some, String, truthy, ltb, if◌then◌else◌,
}
use devflowfix.Core.Enums.{Decimals, IncidentSource}

-- An entry "automated_pr", with its time.
pub record AutomatedPr : Type 0 where
  pub number : Option ℕ
  pub url : Option String
  pub branch : Option String
  pub created_at : ℕ

pub data Status : Type 0 where
  skipped pr_created failed : Status

pub data Reason : Type 0 where
  no_code_changes missing_repository_context missing_user_id : Reason
  auto_pr_disabled pr_creation_criteria_not_met created : Reason
  provider_not_supported : IncidentSource → Reason
  pr_creation_failed : String → Reason

-- An entry "post_analysis".
pub record PostAnalysis : Type 0 where
  pub status : Status
  pub reason : Reason
  pub updated_at : ℕ
  pub pr_number : Option ℕ

pub record Context : Type 0 where
  pub source : IncidentSource
  pub repository : Option String
  pub user_id : Option String
  pub automated_pr : Option AutomatedPr
  pub post_analysis : Option PostAnalysis

-- The "head" of a result: not there, null, or with its "ref".
pub data Head : Type 0 where
  absent null : Head
  head : Option String → Head

pub record PrResult : Type 0 where
  pub number : Option ℕ
  pub html_url : Option String
  pub head_of : Head

pub data Creation : Type 0 where
  returned : PrResult → Creation
  raised : String → Creation

abbrev pub is_github : IncidentSource → Bool
is_github s = elim s [ IncidentSource.github ↦ true | _ ↦ false ]

-- `none` where a pull request is supported, else the reason why not.
unfoldable pub supports_automated_pr : Context → Option Reason
supports_automated_pr c =
    if not (truthy c.repository)
    then some missing_repository_context
    else if not (is_github c.source)
    then some (provider_not_supported c.source)
    else if not (truthy c.user_id)
    then some missing_user_id
    else none

-- Whether the solution has changes of code, where there is a solution.
abbrev has_none : Option Bool → Bool
has_none none = false
has_none (some has_changes) = not has_changes

unfoldable pub should_create_pr : ℕ → ℕ → Option Bool → Context → Bool
should_create_pr min_confidence confidence solution c =
    if ltb confidence min_confidence
    then false
    else if not (truthy c.repository)
    then false
    else if is_some c.automated_pr
    then false
    else if has_none solution
    then false
    else true

unfoldable pub record_post_analysis_state : ℕ → Status → Reason → Option ℕ → Context → Context
record_post_analysis_state now status reason pr_number c = record c {
  post_analysis =
      some (record { status = status; reason = reason; updated_at = now; pr_number = pr_number });
}

-- The branch, or `none` for the exception that a null head raises.
abbrev branch_of : Head → Option (Option String)
branch_of absent = some none
branch_of null = none
branch_of (head ref) = some ref

abbrev pub skip : ℕ → Reason → Context → Context × Option PrResult
skip now reason c = (record_post_analysis_state now skipped reason none c, none)

abbrev null_error : String
null_error = "'NoneType' object has no attribute 'get'"

abbrev pub failing : ℕ → String → Context → Context × Option PrResult
failing now error c =
    (record_post_analysis_state now failed (pr_creation_failed error) none c, none)

abbrev pub note_created :
    ℕ → ℕ → PrResult → Option (Option String) → Context → Context × Option PrResult
note_created now now' r none c = failing now' null_error c
note_created now now' r (some branch) c = (
  record_post_analysis_state now' pr_created created r.number (record c {
    automated_pr =
        some (record { number = r.number; url = r.html_url; branch = branch; created_at = now });
  }),
  some r,
)

abbrev pub conclude : ℕ → ℕ → Creation → Context → Context × Option PrResult
conclude now now' (raised error) c = failing now' error c
conclude now now' (returned r) c = note_created now now' r (branch_of r.head_of) c

-- The call of the creator, and what comes after it. The clock is read for "created_at" and for
-- "updated_at".
unfoldable pub attempt_supported :
    Decimals
    → ℕ
    → ℕ
    → Bool
    → ℕ
    → Bool
    → Creation
    → Context
    → Option Reason
    → Context × Option PrResult
attempt_supported fl now now' enable_auto_pr confidence has_changes k c (some reason) =
    skip now' reason c
attempt_supported fl now now' enable_auto_pr confidence has_changes k c none =
    if not enable_auto_pr
    then skip now' auto_pr_disabled c
    else if not (should_create_pr (fl.dec 70 100) confidence (some has_changes) c)
    then skip now' pr_creation_criteria_not_met c
    else conclude now now' k c

unfoldable pub attempt_post_analysis_pr :
    Decimals → ℕ → ℕ → Bool → ℕ → Bool → Creation → Context → Context × Option PrResult
attempt_post_analysis_pr fl now now' enable_auto_pr confidence has_changes k c =
    if not has_changes
    then skip now' no_code_changes c
    else attempt_supported fl now now' enable_auto_pr confidence has_changes k c
        (supports_automated_pr c)
