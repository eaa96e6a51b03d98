-- ===== src/Webhooks/Tests.antt =====
-- Concrete requests for app/adapters/external/github/webhooks.py.
use devflowfix.Base.{
  ℕ, ◌≡◌, ◌↔◌, refl, true, Option, none, some, [], ◌∷◌, String, Dict, str_eq, if◌then◌else◌,
}
use devflowfix.Webhooks.{valid, extract_signature_header, is_ascii, validate_webhook_request}
use devflowfix.Webhooks.Signatures.{signature, validate_webhook_request_iff}

abbrev short_hash : String → String → String
short_hash secret body = "7f"

abbrev read_empty : String → Option ℕ
read_empty body = if str_eq body "{}" then some 0 else none

short_ascii : is_ascii (short_hash "key" "{}") ≡ true
unfolding is_ascii
short_ascii = refl

abbrev signed : Dict String
signed = ("x-hub-signature-256", "sha256=7f") ∷ []

validate_webhook_request_iff_example :
    (validate_webhook_request short_hash read_empty "key" "{}" signed ≡ valid 0)
    ↔ (extract_signature_header signed ≡ some (signature short_hash "key" "{}"))
      × (read_empty "{}" ≡ some 0)
validate_webhook_request_iff_example =
    validate_webhook_request_iff short_hash read_empty "key" "{}" signed 0 short_ascii
