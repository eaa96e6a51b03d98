-- ===== src/Approvals/Texts.antt =====
-- app/adapters/external/slack/approvals.py: the identifiers of the buttons, and signatures.
use devflowfix.Base.{
  contains, replace, replacing, replacing_free, behind, ◌≡◌, ◌↔◌, refl, true, false, Option, some,
  String, join, eq_iff, truthy, arith,
}
use devflowfix.Approvals.{parse_action, slack_signature, verify_slack_request}

-- The buttons of a message carry "approve_" and "reject_" before the identifier of its incident. A
-- click is read back as that answer for that incident, if the identifier does not hold the word of
-- its button itself.
parse_action-button :
    (id : String)
    → (contains "approve_" id ≡ false
        → parse_action (join "approve_" id) ≡ some (record { id = id; approved = true }))
      × (contains "reject_" id ≡ false
          → parse_action (join "reject_" id) ≡ some (record { id = id; approved = false }))
unfolding parse_action behind replace replacing join
parse_action-button id = (
  λ h. rw (replacing_free "approve_" "" id h) refl,
  λ h. rw (replacing_free "reject_" "" id h) refl,
)

-- With a signing secret a request passes exactly where its signature is that of its body and
-- timestamp, and then passes again at any later time: the timestamp is not compared with the clock.
-- Without a secret every request passes.
verify_slack_request_iff :
    (hmac : String → String → String) (secret : Option String) (body timestamp signature : String)
    → ((truthy secret ≡ false) → verify_slack_request hmac secret body timestamp signature ≡ true)
      × ((key : String)
          → secret ≡ some key
          → truthy secret ≡ true
          → (verify_slack_request hmac secret body timestamp signature ≡ true)
            ↔ (slack_signature hmac key body timestamp ≡ signature))
unfolding verify_slack_request
verify_slack_request_iff hmac secret body timestamp signature = (
  λ h. rw h refl,
  λ key e t. ground (arith, e, t, eq_iff (slack_signature hmac key body timestamp) signature),
)
