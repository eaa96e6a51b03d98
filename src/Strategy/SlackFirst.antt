-- ===== src/Strategy/SlackFirst.antt =====
-- app/domain/strategies/slack_first.py.
use devflowfix.Base.{
  ℕ, Bool, true, not, ◌&&◌, List, [], ◌∷◌, length, is_empty, keep, ltb, leb, if◌then◌else◌,
}
use devflowfix.Core.Enums.{Decimals}
use devflowfix.Core.Incident.{Incident}
use devflowfix.Core.Context.{ExecutionContext, in_production}
use devflowfix.Strategy.{Strategy, AnalysisResult, Similar, Thread, top_similarities}
use devflowfix.Strategy.Floats.{Floats}

module _ (fl : Decimals) (fs : Floats fl) where
  open fl use {dec}
  open fs use {add, mul, div, sum}

  -- min(x, 1.0)
  abbrev pub at_most_one : ℕ → ℕ
  at_most_one x = if leb x (dec 100 100) then x else dec 100 100

  -- The mean similarity of the first n incidents of a list.
  abbrev pub mean_of_top : ℕ → List Similar → ℕ
  mean_of_top n ss = div (sum (top_similarities n ss)) (length (top_similarities n ss))

  abbrev has_resolved : List Thread → Bool
  has_resolved threads = not (is_empty (keep (λ t. t.resolved) threads))

  abbrev pub boosted_by_threads : List Thread → ℕ → ℕ
  boosted_by_threads [] x = x
  boosted_by_threads (t ∷ ts) x =
      if has_resolved (t ∷ ts)
      then at_most_one (add (at_most_one (add x (dec 15 100))) (dec 10 100))
      else at_most_one (add x (dec 15 100))

  abbrev pub boosted_by_incidents : List Similar → ℕ → ℕ
  boosted_by_incidents [] x = x
  boosted_by_incidents (s ∷ ss) x =
      if ltb (dec 85 100) (mean_of_top 3 (s ∷ ss)) then at_most_one (add x (dec 5 100)) else x

  unfoldable pub slack_first_confidence : AnalysisResult → Incident → ExecutionContext → ℕ
  slack_first_confidence a i ctx =
      let base =
        boosted_by_incidents a.similar_incidents
          (boosted_by_threads a.slack_threads a.confidence) in
      if in_production ctx then mul base (dec 95 100) else base

  -- The test of the mean similarity behind the first asks for threads again, so it is never reached.
  unfoldable pub slack_first_trusts : AnalysisResult → Incident → Bool
  slack_first_trusts a i =
      if not (is_empty a.slack_threads)
      then true
      else if not (is_empty a.slack_threads)
          && leb 2 (length a.similar_incidents)
          && ltb (dec 80 100) (div (sum (top_similarities 2 a.similar_incidents)) 2)
      then true
      else ltb (dec 85 100) a.confidence

  unfoldable pub slack_first : Strategy
  unfolding slack_first_confidence slack_first_trusts
  slack_first = record {
    min_confidence = dec 75 100;
    max_blast_radius = 15;
    calculate_confidence = slack_first_confidence;
    should_trust_source = slack_first_trusts;
  }
