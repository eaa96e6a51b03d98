-- ===== src/Webhooks.antt =====
-- app/adapters/external/github/webhooks.py: whether a webhook is from GitHub, and which ones report a
-- failure. The keyed hash of the standard library, in hexadecimal, is `hmac`, and its reader of JSON
-- is `parse`, without a result where it raises. Bodies and their texts are one.
pub mod Signatures
mod Tests
use Prim.Native.Char.{code}
use devflowfix.Base.{
  behind, is_some, ℕ, Bool, true, false, not, ◌&&◌, Option, none, some, List, [], ◌∷◌, String, Dict,
  lookup, truthy, any, str_eq, ltb, ◌==◌, if◌then◌else◌,
}

-- headers.get(name) or headers.get(lower_name)
abbrev pub either : Option String → Option String → Option String
either a b = if truthy a then a else b

unfoldable pub extract_signature_header : Dict String → Option String
extract_signature_header headers =
    either (lookup "X-Hub-Signature-256" headers) (lookup "x-hub-signature-256" headers)

-- The text behind the first "=": split("=", 1)[1]
unfoldable pub after_equals : String → String
after_equals String.[] = String.[]
after_equals (String.◌∷◌ c s) = let rest = after_equals s in if code c == b'=' then s else rest

unfoldable pub is_ascii : String → Bool
is_ascii String.[] = true
is_ascii (String.◌∷◌ c s) = ltb (code c) 128 && is_ascii s

-- hmac.compare_digest; `none` is its TypeError on a text that is not ASCII.
abbrev pub compare_digest : String → String → Option Bool
compare_digest a b = if is_ascii a && is_ascii b then some (str_eq a b) else none

abbrev pub or_blank : Option String → String
or_blank none = ""
or_blank (some s) = s

pub data Verdict {ℓ} (P : Type ℓ) : Type ℓ where
  valid : P → Verdict P
  missing_header bad_signature bad_payload internal_error : Verdict P

module _ (hmac : String → String → String) where
  unfoldable pub compute_signature : String → String → String
  compute_signature webhook_secret payload_body = hmac webhook_secret payload_body

  unfoldable pub verify_signature : String → String → Option String → Option Bool
  verify_signature webhook_secret payload_body signature_header =
      if not (truthy signature_header)
      then some false
      else if not (is_some (behind "sha256=" (or_blank signature_header)))
      then some false
      else compare_digest (after_equals (or_blank signature_header))
          (compute_signature webhook_secret payload_body)

  module _ {ℓ} {P : Type ℓ} (parse : String → Option P) where
    abbrev pub parsed : Option P → Verdict P
    parsed none = bad_payload
    parsed (some p) = valid p

    -- `verify_and_parse`, its exceptions as they are answered by `validate_webhook_request`
    abbrev pub verified : String → Option Bool → Verdict P
    verified payload_body none = internal_error
    verified payload_body (some false) = bad_signature
    verified payload_body (some true) = parsed (parse payload_body)

    unfoldable pub verify_and_parse : String → String → Option String → Verdict P
    verify_and_parse webhook_secret payload_body signature_header =
        verified payload_body (verify_signature webhook_secret payload_body signature_header)

    unfoldable pub validate_webhook_request : String → String → Dict String → Verdict P
    validate_webhook_request webhook_secret payload_body headers =
        if truthy (extract_signature_header headers)
        then verify_and_parse webhook_secret payload_body (extract_signature_header headers)
        else missing_header

  -- `verify_github_webhook`, with the secret given or of the environment; an empty one is none. `none`
  -- is the TypeError of a signature that is not ASCII.
  unfoldable pub verify_github_webhook :
      Option String → Option String → String → Option String → Option Bool
  verify_github_webhook webhook_secret environment payload_body signature_header =
      if truthy (either webhook_secret environment)
      then verify_signature (or_blank (either webhook_secret environment)) payload_body
          signature_header
      else some false

-- The entries of a payload that are read for a failure. An entry of a dictionary is none where it is
-- missing.
pub record WorkflowRun : Type 0 where
  pub conclusion : Option String
  pub run_attempt : Option ℕ

pub record Event : Type 0 where
  pub action : Option String
  pub workflow_run : Option WorkflowRun
  pub check_run : Option (Option String)

abbrev pub one_of : List String → Option String → Bool
one_of names none = false
one_of names (some s) = any (str_eq s) names

abbrev conclusion_of : Option WorkflowRun → Option String
conclusion_of none = none
conclusion_of (some r) = r.conclusion

abbrev pub is_bad : Option String → Bool
is_bad c = one_of ("failure" ∷ "timed_out" ∷ "action_required" ∷ []) c

abbrev check_failed : Option (Option String) → Bool
check_failed none = false
check_failed (some c) = is_bad c

-- A `check_run` that is there is not empty.
unfoldable pub is_workflow_failure : Event → Bool
is_workflow_failure e =
    if one_of ("completed" ∷ []) e.action
    then is_bad (conclusion_of e.workflow_run)
    else check_failed e.check_run

abbrev attempt_of : Option ℕ → ℕ
attempt_of none = 1
attempt_of (some n) = n

abbrev retry_of : Option WorkflowRun → Bool
retry_of none = false
retry_of (some r) =
    one_of ("failure" ∷ "timed_out" ∷ []) r.conclusion && ltb (attempt_of r.run_attempt) 3

unfoldable pub is_retry_eligible : Event → Bool
is_retry_eligible e = retry_of e.workflow_run
