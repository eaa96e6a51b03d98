-- ===== src/Decision/Default.antt =====
-- app/services/decision.py with the strategy that it takes where it is given none, that of
-- app/domain/strategies/hybrid.py.
use devflowfix.Base.{
  ◌≤◌, ◌<◌, ◌≡◌, Bool, true, false, none, List, is_empty, Bool-cases, inl, inr, arith,
}
use devflowfix.Core.Enums.{Decimals, is_critical}
use devflowfix.Core.Incident.{Incident, get_namespace}
use devflowfix.Core.Context.{ExecutionContext, in_production}
use devflowfix.Rules.BlastRadius.{RuleTracker}
use devflowfix.Strategy.{AnalysisResult, Similar, successes, estimate_blast_radius}
use devflowfix.Strategy.Conservative.{Scaling}
use devflowfix.Strategy.Floats.{Floats}
use devflowfix.Strategy.Hybrid.{
  llm_signal, calculate_similarity_score, calculate_historical_score, weighted_signals, is_shared,
  apply_adjustments, hybrid_confidence, hybrid,
}
use devflowfix.Strategy.Hybrid.Bounds.{
  product, similarity_low, historical_low, historical_unproven, similarity_unknown, signals-low,
  adjusted-proven, adjusted-unproven,
}
use devflowfix.Strategy.Factory.{create_strategy}
use devflowfix.Decision.{Rules, Moment, decide}
use devflowfix.Decision.Safety.{decide_iff, production_of}

module _ (fl : Decimals) (fs : Floats fl) where
  open fl use {dec}

  sum_proven :
      (a : AnalysisResult)
      → llm_signal fl fs a ≤ dec 100 100
      → fs.sum (weighted_signals fl fs a) < dec 9780 10000
  sum_proven a l =
      let s = calculate_similarity_score fl fs a.similar_incidents in
      let h = calculate_historical_score fl fs a.similar_incidents in
      signals-low fl fs a 2376 3001 9780 l
        (product fl fs s 95 25 2376 (similarity_low fl fs a.similar_incidents) (omega arith)
          (omega arith) (omega arith))
        (product fl fs h 100 30 3001 (historical_low fl fs a.similar_incidents) (omega arith)
          (omega arith) (omega arith))
        (omega arith) (omega arith)

  sum_unproven :
      (a : AnalysisResult)
      → llm_signal fl fs a ≤ dec 100 100
      → successes a.similar_incidents ≡ 0
      → fs.sum (weighted_signals fl fs a) < dec 7680 10000
  sum_unproven a l n =
      let ss = a.similar_incidents in
      let s = calculate_similarity_score fl fs ss in
      let h = calculate_historical_score fl fs ss in
      let (half, third) = historical_unproven fl fs ss n in
      elim (Bool-cases (is_empty ss)) [
        | inl e ↦
            signals-low fl fs a 1 1501 7680 l
              (product fl fs s 0 25 1 (similarity_unknown fl fs ss e) (omega arith) (omega arith)
                (omega arith))
              (product fl fs h 50 30 1501 half (omega arith) (omega arith) (omega arith))
              (omega arith) (omega arith)
        | inr e ↦
            signals-low fl fs a 2376 901 7680 l
              (product fl fs s 95 25 2376 (similarity_low fl fs ss) (omega arith) (omega arith)
                (omega arith))
              (product fl fs h 30 30 901 (third e) (omega arith) (omega arith) (omega arith))
              (omega arith) (omega arith)
      ]

  live_low :
      (a : AnalysisResult) (i : Incident) (ctx : ExecutionContext)
      → llm_signal fl fs a ≤ dec 100 100
      → in_production ctx ≡ true
      → ctx.dry_run ≡ false
      → hybrid_confidence fl fs a i ctx < dec 95 100
  unfolding hybrid_confidence apply_adjustments
  live_low a i ctx l p d =
      let x = fs.sum (weighted_signals fl fs a) in
      ground (
        arith,
        p,
        d,
        fs.dec_digits 95,
        adjusted-proven fl fs (is_critical i.severity) (is_shared (get_namespace i)) x
            (sum_proven a l),
      )

  unproven_low :
      (a : AnalysisResult) (i : Incident) (ctx : ExecutionContext)
      → llm_signal fl fs a ≤ dec 100 100
      → successes a.similar_incidents ≡ 0
      → hybrid_confidence fl fs a i ctx < dec 85 100
  unfolding hybrid_confidence apply_adjustments
  unproven_low a i ctx l n =
      let x = fs.sum (weighted_signals fl fs a) in
      ground (
        arith,
        fs.dec_digits 85,
        adjusted-unproven fl fs (is_critical i.severity) (in_production ctx) ctx.dry_run
            (is_shared (get_namespace i)) x (sum_unproven a l n),
      )

  -- What the hybrid strategy demands of an automatic fix.
  pub decide-hybrid :
      (en : Bool) (rs : Rules) (m : Moment) (a : AnalysisResult) (i : Incident)
      (ctx : ExecutionContext) (similar : List Similar) (s : RuleTracker)
      → llm_signal fl fs a ≤ dec 100 100
      → (decide fl en rs m (hybrid fl fs) a i ctx similar s).1.should_auto_fix ≡ true
      → (1 ≤ successes a.similar_incidents)
        × (estimate_blast_radius i ctx ≤ 10)
        × (in_production ctx ≡ true → ctx.dry_run ≡ true)
  unfolding hybrid
  decide-hybrid en rs m a i ctx similar s l auto =
      let j = ((decide_iff fl en rs m (hybrid fl fs) a i ctx similar s).0 auto).1 in
      let k = j.confident in
      (
        ground (arith, unproven_low a i ctx l),
        j.contained,
        λ p. elim (Bool-cases ctx.dry_run) [
          | inl e ↦ e
          | inr e ↦
              let low = live_low a i ctx l p e in
              let high = j.production_confident (production_of ctx.environment p) in
              ground (arith, low, high)
        ],
      )

  -- A decision service that is given no strategy takes the hybrid one, and with that, whatever the
  -- rules, it answers with an automatic fix only where one of the similar incidents of the analysis
  -- ended in success and the estimated blast radius is at most 10; and in production only in a dry
  -- run, never otherwise: the confidence stays below the 0.95 demanded there. The confidence of the
  -- language model, or of the analysis where it gave none, is taken to be at most 1.0.
  pub decide-default :
      (sc : Scaling fl) (en : Bool) (rs : Rules) (m : Moment) (a : AnalysisResult) (i : Incident)
      (ctx : ExecutionContext) (similar : List Similar) (s : RuleTracker)
      → llm_signal fl fs a ≤ dec 100 100
      → (decide fl en rs m (create_strategy fl sc fs none none) a i ctx similar s).1.should_auto_fix
        ≡ true
      → (1 ≤ successes a.similar_incidents)
        × (estimate_blast_radius i ctx ≤ 10)
        × (in_production ctx ≡ true → ctx.dry_run ≡ true)
  unfolding create_strategy
  decide-default sc en rs m a i ctx similar s l auto =
      decide-hybrid en rs m a i ctx similar s l auto
