-- ===== src/Rules/Confidence.antt =====
-- app/domain/rules/confidence.py: the confidence that a fix needs, by environment and severity.
pub mod Verdict
use devflowfix.Base.{
  ℕ, Bool, true, false, ◌&&◌, ◌||◌, Option, none, some, String, List, ltb, leb, if◌then◌else◌,
  lower, codes, same_codes,
}
use devflowfix.Core.Enums.{
  Decimals, Environment, production, staging, development, test, Severity, is_production,
  is_critical,
}
use devflowfix.Core.Incident.{Incident, environment_text}

pub record Thresholds : Type 0 where
  pub min_confidence : ℕ
  pub high_confidence : ℕ
  pub production_confidence : ℕ

-- env_map.get(text.lower(), Environment.PRODUCTION), of the lowered text
abbrev environment_named : List ℕ → Environment
environment_named t =
    if same_codes t (codes "prod") || same_codes t (codes "production")
    then production
    else if same_codes t (codes "staging") || same_codes t (codes "stage")
    then staging
    else if same_codes t (codes "dev") || same_codes t (codes "development")
    then development
    else if same_codes t (codes "test")
    then test
    else production

unfoldable pub parse_environment : String → Environment
parse_environment text = environment_named (lower text)

abbrev larger : ℕ → ℕ → ℕ
larger a b = if ltb a b then b else a

abbrev pub base_threshold : Thresholds → Environment → ℕ
base_threshold c production = c.production_confidence
base_threshold c staging = c.high_confidence
base_threshold c development = c.min_confidence
base_threshold c test = c.min_confidence

module _ (fl : Decimals) where
  open fl use {dec}

  unfoldable pub get_threshold : Thresholds → Environment → Severity → ℕ
  get_threshold c environment severity =
      if is_production environment && is_critical severity
      then larger (base_threshold c environment) (dec 98 100)
      else base_threshold c environment

  unfoldable pub evaluate_confidence : Thresholds → Incident → Bool
  unfolding get_threshold
  evaluate_confidence c i = elim i.confidence [
    | none ↦ false
    | some x ↦ leb (get_threshold c (parse_environment (environment_text i)) i.severity) x
  ]
