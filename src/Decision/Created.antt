-- ===== src/Decision/Created.antt =====
-- app/services/decision.py with the strategies of app/domain/strategies/factory.py.
use devflowfix.Base.{
  ◌≤◌, ◌<◌, ◌≡◌, ◌⊎◌, inl, inr, refl, Bool, true, false, Option, none, some, List, [], ◌∷◌, length,
  length-keep-le, Bool-cases, arith,
}
use devflowfix.Core.Enums.{Decimals, Environment, StrategyType}
use devflowfix.Core.Incident.{Incident}
use devflowfix.Core.Context.{ExecutionContext, in_production}
use devflowfix.Rules.BlastRadius.{RuleTracker}
use devflowfix.Strategy.{Strategy, AnalysisResult, Similar, was_success, successes}
use devflowfix.Strategy.Conservative.{Scaling, conservative}
use devflowfix.Strategy.Floats.{Floats}
use devflowfix.Strategy.SlackFirst.{slack_first}
use devflowfix.Strategy.Hybrid.{llm_signal, hybrid}
use devflowfix.Strategy.Hybrid.Bounds.{product}
use devflowfix.Strategy.VectorDb.{weighed, vector_db_confidence, vector_db}
use devflowfix.Strategy.Factory.{create_strategy}
use devflowfix.Decision.{Rules, Moment, decide}
use devflowfix.Decision.Safety.{decide_iff, production_of}
use devflowfix.Decision.Careful.{decide-conservative}
use devflowfix.Decision.Default.{decide-hybrid}

-- Some similar incident is known, or the strategy is the Slack-first one outside production.
abbrev pub IsKnown :
    (fl : Decimals) → Floats fl → Strategy → AnalysisResult → ExecutionContext → Type 0
IsKnown fl fs st a ctx =
    (1 ≤ length a.similar_incidents) ⊎ ((st ≡ slack_first fl fs) × (in_production ctx ≡ false))

module _ (fl : Decimals) (sc : Scaling fl) (fs : Floats fl) (en : Bool) (rs : Rules) (m : Moment)
    (a : AnalysisResult) (i : Incident) (ctx : ExecutionContext) (similar : List Similar)
    (s : RuleTracker) (signal : llm_signal fl fs a ≤ fl.dec 100 100)
    (sure : a.confidence ≤ fl.dec 100 100) where
  abbrev Fixes : Strategy → Type 0
  Fixes st = (decide fl en rs m st a i ctx similar s).1.should_auto_fix ≡ true

  conservative_knows : Fixes (conservative fl sc) → IsKnown fl fs (conservative fl sc) a ctx
  conservative_knows h =
      let known = (decide-conservative fl sc en rs m a i ctx similar s sure h).0 in
      inl (omega arith)

  hybrid_knows : Fixes (hybrid fl fs) → IsKnown fl fs (hybrid fl fs) a ctx
  unfolding successes
  hybrid_knows h =
      let known = (decide-hybrid fl fs en rs m a i ctx similar s signal h).0 in
      let le = length-keep-le was_success a.similar_incidents in inl (omega arith)

  slack_first_knows : Fixes (slack_first fl fs) → IsKnown fl fs (slack_first fl fs) a ctx
  slack_first_knows h =
      let j = ((decide_iff fl en rs m (slack_first fl fs) a i ctx similar s).0 h).1 in
      elim (Bool-cases (in_production ctx)) [
        | inl e ↦
            let known = (j.production_evident (production_of ctx.environment e)).known in
            inl (omega arith)
        | inr e ↦ inr (refl, e)
      ]

  weighed_low : (ss : List Similar) → length ss ≡ 0 → weighed fl fs a ctx ss < fl.dec 80 100
  weighed_low [] h =
      let low =
        product fl fs a.confidence 100 70 7001 sure (omega arith) (omega arith) (omega arith) in
      let up = fs.dec_order 7001 8000 (omega arith) in let d = fs.dec_digits 80 in omega arith
  weighed_low (x ∷ ss) h = ground (arith, h)

  vector_db_knows : Fixes (vector_db fl fs) → IsKnown fl fs (vector_db fl fs) a ctx
  unfolding vector_db vector_db_confidence
  vector_db_knows h =
      let j = ((decide_iff fl en rs m (vector_db fl fs) a i ctx similar s).0 h).1 in
      let k = j.confident in inl (ground (arith, weighed_low a.similar_incidents, k))

  -- Whatever the rules, and with any strategy that the factory makes for a type or an environment:
  -- an automatic fix of a failure to which no similar incident is known is answered only with the
  -- Slack-first strategy and outside production. The confidence of the analysis, and that of the
  -- language model where it gave one, is taken to be at most 1.0.
  pub create-IsKnown :
      (t : Option StrategyType) (e : Option Environment)
      → (decide fl en rs m (create_strategy fl sc fs t e) a i ctx similar s).1.should_auto_fix
        ≡ true
      → IsKnown fl fs (create_strategy fl sc fs t e) a ctx
  unfolding create_strategy
  create-IsKnown (some StrategyType.conservative) e h = conservative_knows h
  create-IsKnown (some StrategyType.slack_first) e h = slack_first_knows h
  create-IsKnown (some StrategyType.vector_db) e h = vector_db_knows h
  create-IsKnown (some StrategyType.hybrid) e h = hybrid_knows h
  create-IsKnown (some StrategyType.aggressive) e h = slack_first_knows h
  create-IsKnown none none h = hybrid_knows h
  create-IsKnown none (some Environment.production) h = conservative_knows h
  create-IsKnown none (some Environment.staging) h = hybrid_knows h
  create-IsKnown none (some Environment.development) h = slack_first_knows h
  create-IsKnown none (some Environment.test) h = slack_first_knows h
