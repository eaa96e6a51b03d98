-- ===== src/Approvals/Answers.antt =====
-- app/adapters/external/slack/approvals.py: the answer to one click.
use devflowfix.Base.{
  ℕ, ◌≤◌, ◌<◌, ◌≡◌, ◌≢◌, Bool, true, false, ◌&&◌, some, [], ◌∷◌, String, lookup, erase,
  lookup-erase, if◌then◌else◌, eq_iff, arith,
}
use devflowfix.Core.Enums.{ApprovalStatus}
use devflowfix.Approvals.{
  Approvals, Pending, Click, User, Run, returned, raised, Handled, answered, error, refused,
  no_pending, timed_out, parse_action, check_callback, check_pending, outcome_of, finish_with,
  admitted, finish_callback, handle_callback, ApprovalResponse,
}

abbrev pub has_returned : Run → Bool
has_returned (returned ok) = true
has_returned raised = false

-- What the answer to a click says.
pub record Says (k : Click) (cb : Bool) (run : Run) (h : Handled) : Type 0 where
  pub answer : ApprovalResponse
  pub is_answer : h ≡ answered answer
  pub same_incident : answer.incident_id ≡ k.id
  pub status :
      answer.approval_status
      ≡ (if k.approved then ApprovalStatus.approved else ApprovalStatus.rejected)
  pub ran : answer.executed ≡ (k.approved && (cb && has_returned run))

check_callback-parsed :
    (now : ℕ) (action : String) (k : Click) (s : Approvals)
    → parse_action action ≡ some k
    → check_callback now (action ∷ []) s ≡ check_pending now k (lookup k.id s)
unfolding check_callback
check_callback-parsed now action k s e = ground (arith, e)

finish_with-Says :
    (now : ℕ) (cb : Bool) (run : Run) (u : User) (k : Click) (p : Pending) (s : Approvals)
    → Says k cb run (outcome_of (finish_with now cb run u k s (some p)).1)
finish_with-Says now cb run u k p s = ground arith

-- A click on a button of a pending approval whose timeout has passed is refused and changes nothing:
-- the approval stays pending. Up to the timeout the click is answered for its incident as its button
-- says, the fix counts as executed exactly where the button approves, the adapter has a callback and
-- that returned, other approvals stay as they were, and every later click on the button is refused.
pub handle_callback-once :
    (now now' later : ℕ) (cb : Bool) (run : Run) (u : User) (action : String) (k : Click)
    (p : Pending) (s : Approvals)
    → parse_action action ≡ some k
    → lookup k.id s ≡ some p
    → let r = handle_callback now now' cb run u (action ∷ []) s in
      (p.timeout_at < now → r ≡ (s, error timed_out))
      × (now ≤ p.timeout_at
          → Says k cb run r.1
            × ((id : String) → k.id ≢ id → lookup id r.0 ≡ lookup id s)
            × (check_callback later (action ∷ []) r.0 ≡ refused no_pending))
unfolding handle_callback finish_callback
handle_callback-once now now' later cb run u action k p s e l =
    let c = check_callback-parsed now action k s e in
    let d = check_callback-parsed later action k (erase k.id s) e in
    let gone = lookup-erase k.id k.id s in
    let says = finish_with-Says now' cb run u k p s in
    (
      λ h. ground (arith, c, l),
      λ h.
          let admitted_ : check_callback now (action ∷ []) s ≡ admitted k p =
            ground (arith, c, l) in
          rw (admitted_, l)
            (
              says,
              λ id n. ground (arith, lookup-erase k.id id s, eq_iff k.id id),
              ground (arith, d, gone, eq_iff k.id k.id),
            ),
    )
