-- ===== src/Core/Enums/Approval.antt =====
-- app/core/enums.py: approvals, thresholds and confidence levels agree with one another.
use devflowfix.Base.{ℕ, ◌≤◌, ◌≡◌, ◌≢◌, ◌↔◌, ◌⊎◌, inl, inr, refl, false, arith}
use devflowfix.Core.Enums.{
  Decimals, Severity, critical, Environment, development, staging, production, test,
  ConfidenceLevel, very_low, low, medium, high, very_high, from_score, requires_approval,
  get_confidence_threshold,
}

abbrev pub level_number : ConfidenceLevel → ℕ
level_number very_low = 0
level_number low = 1
level_number medium = 2
level_number high = 3
level_number very_high = 4

module _ (fl : Decimals) where
  -- A fix needs no approval exactly where the environment is for development or testing, or its
  -- confidence reaches the threshold that `get_confidence_threshold` gives for the environment and
  -- it is not a critical incident in production.
  requires_approval_iff :
      (confidence : ℕ) (severity : Severity) (environment : Environment)
      → (requires_approval fl confidence severity environment ≡ false) ↔ (
          (environment ≡ development)
          ⊎ (environment ≡ test)
          ⊎ ((get_confidence_threshold fl environment ≤ confidence)
              × ((environment ≡ production) → severity ≢ critical)))
  unfolding requires_approval get_confidence_threshold
  requires_approval_iff confidence severity development = (λ h. inl refl, λ h. refl)
  requires_approval_iff confidence severity staging = (λ h. ground arith, λ h. ground arith)
  requires_approval_iff confidence severity production =
      (λ h. inr (inr (ground arith, λ _ c. ground arith)), λ h. ground arith)
  requires_approval_iff confidence severity test = (λ h. inr (inl refl), λ h. refl)

  -- A higher score never has a lower level.
  from_score_mono :
      (a b : ℕ) → a ≤ b → level_number (from_score fl a) ≤ level_number (from_score fl b)
  unfolding from_score
  from_score_mono a b h = ground arith
