-- ===== src/Strategy/Hybrid.antt =====
-- app/domain/strategies/hybrid.py.
pub mod Bounds
use devflowfix.Base.{
  ℕ, ◌+◌, ◌*◌, Bool, true, false, not, ◌||◌, Option, none, some, List, [], ◌∷◌, String, length,
  is_empty, keep, ltb, leb, if◌then◌else◌, lower, codes, occurs, str_eq,
}
use devflowfix.Core.Enums.{Decimals, IncidentSource, is_critical}
use devflowfix.Core.Incident.{Incident, get_namespace}
use devflowfix.Core.Context.{ExecutionContext, in_production}
use devflowfix.Strategy.{Strategy, AnalysisResult, Similar, Thread, was_success, successes}
use devflowfix.Strategy.Floats.{Floats}
use devflowfix.Strategy.SlackFirst.{at_most_one, mean_of_top}

-- The seconds that the incidents took to resolve, together.
abbrev pub seconds : List Similar → ℕ
seconds [] = 0
seconds (s ∷ ss) = s.resolution_time_seconds + seconds ss

abbrev is_solved : Thread → Bool
is_solved t = t.has_steps || occurs (codes "solution") (lower t.printed)

abbrev any_solved : List Thread → Bool
any_solved ts = not (is_empty (keep is_solved ts))

abbrev pub is_shared : Option String → Bool
is_shared none = false
is_shared (some n) = str_eq n "kube-system" || str_eq n "default"

module _ (fl : Decimals) (fs : Floats fl) where
  open fl use {dec}
  open fs use {add, mul, div, sum}

  -- analysis.llm_confidence or analysis.confidence
  abbrev pub llm_signal : AnalysisResult → ℕ
  llm_signal a = elim a.llm_confidence [
    | none ↦ a.confidence
    | some x ↦ if ltb (dec 0 100) x then x else a.confidence
  ]

  abbrev graded : ℕ → ℕ
  graded mean =
      if ltb (dec 90 100) mean
      then dec 95 100
      else if ltb (dec 80 100) mean
      then dec 85 100
      else if ltb (dec 70 100) mean
      then dec 75 100
      else mul mean (dec 90 100)

  unfoldable pub calculate_similarity_score : List Similar → ℕ
  calculate_similarity_score [] = dec 0 100
  calculate_similarity_score (s ∷ ss) = graded (mean_of_top fl fs 3 (s ∷ ss))

  -- The mean time is compared over whole numbers.
  abbrev time_bonus : List Similar → ℕ
  time_bonus resolved =
      if ltb (seconds resolved) (60 * length resolved)
      then dec 10 100
      else if ltb (seconds resolved) (300 * length resolved)
      then dec 5 100
      else dec 0 100

  unfoldable pub calculate_historical_score : List Similar → ℕ
  unfolding successes
  calculate_historical_score ss =
      if is_empty ss
      then dec 50 100
      else if is_empty (keep was_success ss)
      then dec 30 100
      else at_most_one fl fs
          (add (dec (successes ss) (length ss)) (time_bonus (keep was_success ss)))

  unfoldable pub calculate_slack_score : List Thread → ℕ
  calculate_slack_score threads =
      let resolved = keep (λ t. t.resolved) threads in
      if is_empty threads
      then dec 50 100
      else if is_empty resolved
      then dec 60 100
      else if any_solved resolved
      then dec 90 100
      else dec 75 100

  abbrev pub mul_if : Bool → ℕ → ℕ → ℕ
  mul_if b n x = if b then mul x (dec n 100) else x

  abbrev pub dry : Bool → ℕ → ℕ
  dry b x = if b then at_most_one fl fs (mul x (dec 105 100)) else x

  -- The four factors in the order of the code.
  abbrev pub adjusted : Bool → Bool → Bool → Bool → ℕ → ℕ
  adjusted critical live dry_run shared x =
      mul_if shared 90 (dry dry_run (mul_if live 97 (mul_if critical 95 x)))

  abbrev pub weighted_signals : AnalysisResult → List ℕ
  weighted_signals a =
      mul (llm_signal a) (dec 35 100)
      ∷ mul (calculate_similarity_score a.similar_incidents) (dec 25 100)
      ∷ mul (calculate_historical_score a.similar_incidents) (dec 30 100)
      ∷ mul (calculate_slack_score a.slack_threads) (dec 10 100)
      ∷ []

  -- `_apply_adjustments`
  unfoldable pub apply_adjustments : ℕ → Incident → ExecutionContext → ℕ
  apply_adjustments x i ctx =
      adjusted (is_critical i.severity) (in_production ctx) ctx.dry_run
        (is_shared (get_namespace i)) x

  -- min(x, 0.99)
  abbrev pub below_one : ℕ → ℕ
  below_one x = if leb x (dec 99 100) then x else dec 99 100

  unfoldable pub hybrid_confidence : AnalysisResult → Incident → ExecutionContext → ℕ
  hybrid_confidence a i ctx = below_one (apply_adjustments (sum (weighted_signals a)) i ctx)

  abbrev is_watched : IncidentSource → Bool
  is_watched IncidentSource.github = true
  is_watched IncidentSource.kubernetes = true
  is_watched IncidentSource.argocd = true
  is_watched _ = false

  abbrev is_sure : Option ℕ → Bool
  is_sure none = false
  is_sure (some x) = ltb (dec 85 100) x

  abbrev add_if : Bool → ℕ → ℕ → ℕ
  add_if b n x = if b then add x (dec n 100) else x

  unfoldable pub hybrid_trusts : AnalysisResult → Incident → Bool
  hybrid_trusts a i = leb (dec 60 100) (
      add_if (is_sure a.llm_confidence) 20 (
        add_if (not (is_empty a.slack_threads)) 20 (
          add_if (leb 2 (length a.similar_incidents)) 30
            (add_if (is_watched i.source) 30 (dec 0 100)))))

  unfoldable pub hybrid : Strategy
  unfolding hybrid_confidence hybrid_trusts
  hybrid = record {
    min_confidence = dec 85 100;
    max_blast_radius = 10;
    calculate_confidence = hybrid_confidence;
    should_trust_source = hybrid_trusts;
  }
