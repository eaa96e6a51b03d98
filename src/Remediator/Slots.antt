-- ===== src/Remediator/Slots.antt =====
-- app/services/remediator.py: the count of running executions over whole calls.
use devflowfix.Base.{ℕ, ◌+◌, ◌≡◌, true, false, Option, List, [], ◌∷◌}
use devflowfix.Core.Incident.{Incident}
use devflowfix.Core.Plan.{RemediationPlan, RemediationResult}
use devflowfix.Limits.{Tracker}
use devflowfix.Remediator.{
  Service, Flags, Clock, crashed, Remediator, Began, refused, running, begin, execute_remediation,
}
use devflowfix.Remediator.Success.{started}

-- Counted calls, without a database session.
pub record IsCounted (f : Flags) : Type 0 where
  pub counts : f.skip_blast_radius_check ≡ false
  pub no_session : f.db ≡ false

abbrev slots : Began → ℕ → ℕ
slots (refused r) n = n
slots (running logs) n = n + 1

-- One call with all its arguments but the state.
pub record Request : Type 0 where
  pub flags : Flags
  pub clock : Clock
  pub incident : Incident
  pub plan : RemediationPlan
  pub remediator : Remediator

unfoldable pub serve : Service → Request → Tracker → Tracker × Option RemediationResult
serve sv q s = execute_remediation sv q.flags q.clock q.incident q.plan q.remediator s

unfoldable pub serve_all : Service → List Request → Tracker → Tracker
unfolding serve
serve_all sv [] s = s
serve_all sv (q ∷ qs) s = serve_all sv qs (serve sv q s).0

-- Every request is counted and without a database session.
abbrev pub AreCounted : List Request → Type 0
AreCounted [] = Unit
AreCounted (q ∷ qs) = IsCounted q.flags × AreCounted qs

-- Every request is counted, without a database session and let through, and its remediator raises.
abbrev pub AllCrash : Service → List Request → Tracker → Type 0
AllCrash sv [] s = Unit
AllCrash sv (q ∷ qs) s =
    IsCounted q.flags
    × (q.remediator.run q.incident q.plan ≡ crashed)
    × (started (begin sv q.flags q.clock q.incident q.plan q.remediator.get_action_type s).1 ≡ true)
    × AllCrash sv qs (serve sv q s).0
