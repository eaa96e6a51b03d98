-- ===== src/Strategy/VectorDb.antt =====
-- app/domain/strategies/vector_db.py.
use devflowfix.Base.{
  ℕ, zero, suc, ◌+◌, Bool, false, ◌||◌, Option, none, some, List, [], ◌∷◌, length, is_empty, ltb,
  leb, if◌then◌else◌,
}
use devflowfix.Core.Enums.{Decimals}
use devflowfix.Core.Incident.{Incident}
use devflowfix.Core.Context.{ExecutionContext, in_production}
use devflowfix.Strategy.{Strategy, AnalysisResult, Similar, successes}
use devflowfix.Strategy.Floats.{Floats}
use devflowfix.Strategy.SlackFirst.{at_most_one}

abbrev pub in_last_week : Option ℕ → Bool
in_last_week none = false
in_last_week (some days) = leb days 7

-- The recent ones among the first n incidents.
unfoldable pub recent_count : ℕ → List Similar → ℕ
recent_count n [] = 0
recent_count zero (s ∷ ss) = 0
recent_count (suc n) (s ∷ ss) =
    let rest = recent_count n ss in if in_last_week s.age_days then 1 + rest else rest

module _ (fl : Decimals) (fs : Floats fl) where
  open fl use {dec}
  open fs use {add, mul}

  unfoldable pub calculate_recency_boost : List Similar → ℕ
  unfolding recent_count
  calculate_recency_boost ss =
      if leb 3 (recent_count 5 ss)
      then dec 5 100
      else if leb 1 (recent_count 5 ss)
      then dec 2 100
      else dec 0 100

  -- max(x, 0.6)
  abbrev at_least_sixty : ℕ → ℕ
  at_least_sixty x = if ltb x (dec 60 100) then dec 60 100 else x

  abbrev similarity_boost : ℕ → ℕ
  similarity_boost top =
      if leb (dec 90 100) top
      then dec 95 100
      else if leb (dec 75 100) top
      then dec 85 100
      else at_least_sixty top

  abbrev number_boost : ℕ → ℕ → ℕ
  number_boost number x =
      if leb 5 number
      then at_most_one fl fs (mul x (dec 105 100))
      else if leb 3 number
      then at_most_one fl fs (mul x (dec 102 100))
      else x

  abbrev success_boost : List Similar → ℕ → ℕ
  success_boost ss x =
      if ltb (dec 80 100) (dec (successes ss) (length ss))
      then at_most_one fl fs (mul x (dec 103 100))
      else x

  -- The boost of a list whose first incident is s.
  abbrev pub confidence_boost : Similar → List Similar → ℕ
  confidence_boost s ss = at_most_one fl fs (
      add (success_boost ss (number_boost (length ss) (similarity_boost s.similarity)))
        (calculate_recency_boost ss))

  abbrev live_factor : Bool → ℕ → ℕ
  live_factor b x = if b then mul x (dec 98 100) else x

  abbrev pub weighed : AnalysisResult → ExecutionContext → List Similar → ℕ
  weighed a ctx [] = mul a.confidence (dec 70 100)
  weighed a ctx (s ∷ ss) =
      live_factor (in_production ctx)
        (add (mul a.confidence (dec 40 100)) (mul (confidence_boost s (s ∷ ss)) (dec 60 100)))

  unfoldable pub vector_db_confidence : AnalysisResult → Incident → ExecutionContext → ℕ
  vector_db_confidence a i ctx = weighed a ctx a.similar_incidents

  abbrev trusts_similar : List Similar → Bool
  trusts_similar [] = false
  trusts_similar (s ∷ ss) =
      if ltb s.similarity (dec 70 100)
      then false
      else if is_empty ss
      then ltb (dec 85 100) s.similarity
      else if ltb (successes (s ∷ ss)) 1
      then false
      else leb 2 (successes (s ∷ ss)) || ltb (dec 90 100) s.similarity

  unfoldable pub vector_db_trusts : AnalysisResult → Incident → Bool
  vector_db_trusts a i = trusts_similar a.similar_incidents

  unfoldable pub vector_db : Strategy
  unfolding vector_db_confidence vector_db_trusts
  vector_db = record {
    min_confidence = dec 80 100;
    max_blast_radius = 12;
    calculate_confidence = vector_db_confidence;
    should_trust_source = vector_db_trusts;
  }
