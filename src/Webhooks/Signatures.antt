-- ===== src/Webhooks/Signatures.antt =====
-- app/adapters/external/github/webhooks.py: which requests are accepted.
use Prim.Native.Char.{code}
use text.Mathlib.TextEquality.{Char-path}
use devflowfix.Base.{
  behind, ◌≡◌, ◌↔◌, refl, ap, ◌∙◌, sym, Bool, true, false, not, Option, none, some, String, Dict,
  truthy, join, str_eq, eq_iff, ◌==◌, Bool-cases, Option-cases, inl, inr, if◌then◌else◌, arith,
}
use devflowfix.Webhooks.{
  valid, missing_header, extract_signature_header, after_equals, is_ascii, compute_signature,
  verify_signature, verified, verify_and_parse, validate_webhook_request,
}

behind-join : (p s rest : String) → behind p s ≡ some rest → s ≡ join p rest
unfolding behind join
behind-join String.[] s rest e = ground (arith, e)
behind-join (String.◌∷◌ c p) String.[] rest e = cc
behind-join (String.◌∷◌ c p) (String.◌∷◌ d s) rest e = elim (Bool-cases (code c == code d)) [
  | inl t ↦
      let same : c ≡ d = Char-path c d (ground (arith, t)) in
      let tail = behind-join p s rest (ground (arith, e, t)) in
      ap (λ z. String.◌∷◌ z s) (sym same) ∙ ap (String.◌∷◌ c) tail
  | inr f ↦ absurd (ground (arith, e, f))
]

after_equals-prefix : (rest : String) → after_equals (join "sha256=" rest) ≡ rest
unfolding after_equals join
after_equals-prefix rest = refl

abbrev is_blank : String → Bool
is_blank String.[] = true
is_blank (String.◌∷◌ c s) = false

signature-truthy : (rest : String) → truthy (some (join "sha256=" rest)) ≡ true
unfolding join
signature-truthy rest = elim (Bool-cases (str_eq (join "sha256=" rest) "")) [
  | inl t ↦ absurd (ground (arith, ap is_blank ((eq_iff (join "sha256=" rest) "").0 t)))
  | inr f ↦ ap not f
]

module _ (hmac : String → String → String) where
  -- The signature that GitHub sends.
  abbrev pub signature : String → String → String
  signature secret body = join "sha256=" (hmac secret body)

  verify_signature-header :
      (secret body header : String)
      → verify_signature hmac secret body (some header) ≡ some true
      → header ≡ signature secret body
  unfolding verify_signature compute_signature
  verify_signature-header secret body header e = elim (Option-cases (behind "sha256=" header)) [
    | inl n ↦ absurd (ground (arith, e, n))
    | inr (rest, b) ↦
        let h = behind-join "sha256=" header rest b in
        let split = ap after_equals h ∙ after_equals-prefix rest in
        let same : str_eq (after_equals header) (hmac secret body) ≡ true = ground (arith, e, b) in
        let hash = sym split ∙ (eq_iff (after_equals header) (hmac secret body)).0 same in
        h ∙ ap (join "sha256=") hash
  ]

  signature-verified :
      (secret body : String)
      → is_ascii (hmac secret body) ≡ true
      → verify_signature hmac secret body (some (signature secret body)) ≡ some true
  unfolding verify_signature compute_signature behind join after_equals
  signature-verified secret body a =
      rw (signature-truthy (hmac secret body))
        (ground (arith, a, eq_iff (hmac secret body) (hmac secret body)))

  module _ {ℓ} {P : Type ℓ} (parse : String → Option P) where
    verified-valid :
        (secret body : String) (o : Option Bool) (p : P)
        → verified hmac parse body o ≡ valid p
        → (o ≡ some true) × (parse body ≡ some p)
    verified-valid secret body none p e = absurd (ground (arith, e))
    verified-valid secret body (some false) p e = absurd (ground (arith, e))
    verified-valid secret body (some true) p e = elim (Option-cases (parse body)) [
      | inl n ↦ absurd (ground (arith, e, n))
      | inr (q, f) ↦ ground (arith, e, f)
    ]

    validated :
        (secret body : String) (o : Option String) (p : P)
        → is_ascii (hmac secret body) ≡ true
        → ((if truthy o then verify_and_parse hmac parse secret body o else missing_header)
            ≡ valid p)
          ↔ (o ≡ some (signature secret body)) × (parse body ≡ some p)
    unfolding verify_and_parse
    validated secret body none p a =
        (λ e. absurd (ground (arith, e)), λ h. absurd (ground (arith, h)))
    validated secret body (some header) p a = (
      λ e.
          let r =
            verified-valid secret body (verify_signature hmac secret body (some header)) p
              (ground (arith, e)) in
          (ap some (verify_signature-header secret body header r.0), r.1),
      λ h.
          let same : header ≡ signature secret body = ground (arith, h.0) in
          let good = signature-verified secret body a in
          rw (same, signature-truthy (hmac secret body), good, h.1) refl,
    )

    -- A request is accepted, and its payload returned, exactly where its signature header, in either
    -- spelling, is the hash of its body with the secret behind "sha256=", and its body can be read.
    pub validate_webhook_request_iff :
        (secret body : String) (headers : Dict String) (p : P)
        → is_ascii (hmac secret body) ≡ true
        → (validate_webhook_request hmac parse secret body headers ≡ valid p)
          ↔ (extract_signature_header headers ≡ some (signature secret body))
            × (parse body ≡ some p)
    unfolding validate_webhook_request
    validate_webhook_request_iff secret body headers p a =
        validated secret body (extract_signature_header headers) p a
