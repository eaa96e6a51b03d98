-- ===== src/Strategy/Conservative.antt =====
-- app/domain/strategies/conservative.py: an instance of the interface. Its products of floats are
-- taken by `Scaling`.
use devflowfix.Base.{
  ℕ, ◌*◌, ◌≤◌, ◌<◌, ◌≡◌, Bool, true, false, ◌&&◌, ◌||◌, Option, none, some, length, is_empty, ltb,
  leb, if◌then◌else◌,
}
use devflowfix.Core.Enums.{Decimals, IncidentSource, is_critical}
use devflowfix.Core.Incident.{Incident}
use devflowfix.Core.Context.{ExecutionContext, in_production}
use devflowfix.Strategy.{Strategy, AnalysisResult}

-- `scale x n` is the float product of x and n / 100. Rounding keeps the order; a factor up to 1.0 does
-- not enlarge; 1.0 is neutral; and the product of two decimals stays on its side of a decimal that it
-- differs from, since they differ by a ten-thousandth at least.
pub record Scaling (fl : Decimals) : Type 0 where
  pub scale : ℕ → ℕ → ℕ
  pub scale_mono : (x y n : ℕ) → x ≤ y → scale x n ≤ scale y n
  pub scale_shrinks : (x n : ℕ) → n ≤ 100 → scale x n ≤ x
  pub scale_one : (n : ℕ) → scale (fl.dec 100 100) n ≡ fl.dec n 100
  pub scale_below :
      (a b c : ℕ) → a ≤ 100 → b ≤ 100 → a * b < c * 100 → scale (fl.dec a 100) b < fl.dec c 100

module _ (fl : Decimals) (sc : Scaling fl) where
  open fl use {dec}
  open sc use {scale}

  abbrev pub scaled_if : Bool → ℕ → ℕ → ℕ
  scaled_if b n x = if b then scale x n else x

  abbrev pub few : AnalysisResult → Bool
  few a = is_empty a.similar_incidents || ltb (length a.similar_incidents) 3

  -- analysis.llm_confidence and analysis.llm_confidence < 0.9
  abbrev pub doubts : Option ℕ → Bool
  doubts none = false
  doubts (some x) = ltb (dec 0 100) x && ltb x (dec 90 100)

  -- min(x, 0.99)
  abbrev pub capped : ℕ → ℕ
  capped x = if leb x (dec 99 100) then x else dec 99 100

  -- The factors in the order in which they are applied, then the minimum.
  abbrev pub weighted : Bool → Bool → Bool → Bool → ℕ → ℕ
  weighted few critical live doubted x =
      capped (scaled_if doubted 96 (scaled_if live 98 (scaled_if critical 95 (scaled_if few 90 x))))

  unfoldable pub conservative_confidence : AnalysisResult → Incident → ExecutionContext → ℕ
  conservative_confidence a i ctx =
      weighted (few a) (is_critical i.severity) (in_production ctx) (doubts a.llm_confidence)
        a.confidence

  unfoldable pub conservative_trusts : AnalysisResult → Incident → Bool
  conservative_trusts a i = elim i.source [
    | IncidentSource.manual ↦ false
    | _ ↦
        if is_empty a.similar_incidents
        then false
        else if ltb a.confidence (dec 90 100)
        then false
        else true
  ]

  unfoldable pub conservative : Strategy
  unfolding conservative_confidence conservative_trusts
  conservative = record {
    min_confidence = dec 95 100;
    max_blast_radius = 5;
    calculate_confidence = conservative_confidence;
    should_trust_source = conservative_trusts;
  }
