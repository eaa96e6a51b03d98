-- ===== src/Decision/Safety.antt =====
-- app/services/decision.py: what an automatic fix requires.
use devflowfix.Base.{
  ◌≤◌, ◌≡◌, ◌↔◌, refl, Bool, true, none, List, length, arith, ◌&&◌, not, leb, ltb, inl, inr,
  Bool-cases,
}
use devflowfix.Core.Enums.{Decimals, Environment, auto, production, critical, is_production}
use devflowfix.Core.Incident.{Incident, service_key}
use devflowfix.Core.Context.{ExecutionContext, in_production}
use devflowfix.Rules.Blacklist.{Combination, evaluate_blacklist}
use devflowfix.Rules.BlastRadius.{RuleTracker, evaluate_blast_radius}
use devflowfix.Rules.Confidence.{evaluate_confidence}
use devflowfix.Rules.TimeWindow.{evaluate_time_window, evaluate_environment}
use devflowfix.Strategy.{
  Strategy, is_auto, AnalysisResult, Similar, successes, decide_strategy, apply_blast_radius_check,
  estimate_blast_radius,
}
use devflowfix.Decision.{
  Rules, Moment, top_similarity, apply_rules, verify_production_safety, decide_allowed, decide,
}

-- The evidence that production demands.
pub record ProductionEvidence (fl : Decimals) (a : AnalysisResult) (i : Incident) : Type 0 where
  pub analysed : fl.dec 95 100 ≤ a.confidence
  pub known : 2 ≤ length a.similar_incidents
  pub fixed_before : 2 ≤ successes a.similar_incidents
  pub close :
      i.severity ≡ critical → fl.dec 95 100 ≤ top_similarity a.similar_incidents (fl.dec 0 100)

-- What the strategy, its blast radius and production demand of an automatic fix.
pub record Justified (fl : Decimals) (st : Strategy) (a : AnalysisResult) (i : Incident)
    (ctx : ExecutionContext) : Type 0 where
  pub fixable : a.fixability ≡ auto
  pub confident : st.min_confidence ≤ st.calculate_confidence a i ctx
  pub contained : estimate_blast_radius i ctx ≤ st.max_blast_radius
  pub production_confident :
      ctx.environment ≡ production → fl.dec 95 100 ≤ st.calculate_confidence a i ctx
  pub production_evident : ctx.environment ≡ production → ProductionEvidence fl a i

pub production_of : (e : Environment) → is_production e ≡ true → e ≡ Environment.production
production_of Environment.production h = refl
production_of Environment.staging h = ground (arith, h)
production_of Environment.development h = ground (arith, h)
production_of Environment.test h = ground (arith, h)

module _ (fl : Decimals) where
  verify_production_safety_iff :
      (a : AnalysisResult) (i : Incident)
      → (verify_production_safety fl a i ≡ true) ↔ ProductionEvidence fl a i
  unfolding verify_production_safety
  verify_production_safety_iff a i = (λ h. ground arith, λ h. ground arith)

  decide_strategy_iff :
      (st : Strategy) (a : AnalysisResult) (i : Incident) (ctx : ExecutionContext)
      (similar : List Similar)
      → (decide_strategy fl st a i ctx similar).should_auto_fix ≡ (
          is_auto a.fixability
          && (leb st.min_confidence (st.calculate_confidence a i ctx)
              && not (in_production ctx && ltb (st.calculate_confidence a i ctx) (fl.dec 95 100))))
  unfolding decide_strategy
  decide_strategy_iff st a i ctx similar = ground arith

  apply_blast_radius_check_iff :
      (st : Strategy) (i : Incident) (ctx : ExecutionContext)
      → apply_blast_radius_check st i ctx ≡ leb (estimate_blast_radius i ctx) st.max_blast_radius
  unfolding apply_blast_radius_check
  apply_blast_radius_check_iff st i ctx = ground arith

  decide_allowed_verdict :
      (st : Strategy) (a : AnalysisResult) (i : Incident) (ctx : ExecutionContext)
      (similar : List Similar)
      → (decide_allowed fl st a i ctx similar).should_auto_fix ≡ (
          (decide_strategy fl st a i ctx similar).should_auto_fix
          && (apply_blast_radius_check st i ctx
              && not (in_production ctx && not (verify_production_safety fl a i))))
  decide_allowed_verdict st a i ctx similar = unfold decide_allowed in ground arith

  decide_allowed_iff :
      (st : Strategy) (a : AnalysisResult) (i : Incident) (ctx : ExecutionContext)
      (similar : List Similar)
      → ((decide_allowed fl st a i ctx similar).should_auto_fix ≡ true) ↔ Justified fl st a i ctx
  decide_allowed_iff st a i ctx similar =
      let e = decide_allowed_verdict st a i ctx similar in
      let f = decide_strategy_iff st a i ctx similar in
      let g = apply_blast_radius_check_iff st i ctx in
      let (sound, complete) = verify_production_safety_iff a i in
      (
        λ h. record {
          fixable = ground (arith, e, f, g);
          confident = ground (arith, e, f, g);
          contained = ground (arith, e, f, g);
          production_confident = ground (arith, e, f, g);
          production_evident = λ p. sound (ground (arith, e, f, g));
        },
        λ j. elim (Bool-cases (in_production ctx)) [
          | inl p ↦
              let ok = complete (j.production_evident (ground arith)) in ground (arith, e, f, g, ok)
          | inr q ↦ ground (arith, e, f, g)
        ],
      )

  -- The rules that count in a decision. The blacklist is not among them.
  pub record RulesPass (rs : Rules) (m : Moment) (i : Incident) (s : RuleTracker) : Type 0 where
    pub within_limits : (evaluate_blast_radius rs.limits m.readings (service_key i) s).1 ≡ true
    pub in_window : evaluate_time_window rs.window m.time_of_day m.weekday ≡ true
    pub trusted : evaluate_confidence fl rs.thresholds i ≡ true

  apply_rules-none :
      (rs : Rules) (m : Moment) (i : Incident) (s : RuleTracker)
      → ((apply_rules fl rs m i s).1 ≡ none) ↔ RulesPass rs m i s
  unfolding apply_rules evaluate_blacklist evaluate_environment
  apply_rules-none rs m i s = (λ h. ground arith, λ h. ground arith)

  decide_verdict :
      (en : Bool) (rs : Rules) (m : Moment) (st : Strategy) (a : AnalysisResult) (i : Incident)
      (ctx : ExecutionContext) (similar : List Similar) (s : RuleTracker)
      → ((decide fl en rs m st a i ctx similar s).1.should_auto_fix ≡ true) ↔ (
          (en ≡ true → (apply_rules fl rs m i s).1 ≡ none)
          × ((decide_allowed fl st a i ctx similar).should_auto_fix ≡ true))
  unfolding decide
  decide_verdict en rs m st a i ctx similar s = (λ h. ground arith, λ h. ground arith)

  -- `decide` answers with an automatic fix exactly where: with rules enabled, the rate limits, the
  -- time window and the confidence rule pass; the analysis calls the failure automatically fixable;
  -- the confidence of the strategy reaches its minimum; the estimated blast radius is at most the
  -- strategy's; and, in production, that confidence is at least 0.95, the analysis is confident to
  -- 0.95, it knows two similar incidents, two of those it knows ended in success, and for a critical
  -- incident the first of them is similar to 0.95. This holds for every strategy.
  pub decide_iff :
      (en : Bool) (rs : Rules) (m : Moment) (st : Strategy) (a : AnalysisResult) (i : Incident)
      (ctx : ExecutionContext) (similar : List Similar) (s : RuleTracker)
      → ((decide fl en rs m st a i ctx similar s).1.should_auto_fix ≡ true)
        ↔ ((en ≡ true → RulesPass rs m i s) × Justified fl st a i ctx)
  decide_iff en rs m st a i ctx similar s =
      let (sound, complete) = decide_verdict en rs m st a i ctx similar s in
      let rules = apply_rules-none rs m i s in
      let strategy = decide_allowed_iff st a i ctx similar in
      (
        λ h. (λ on. rules.0 ((sound h).0 on), strategy.0 (sound h).1),
        λ h. complete (λ on. rules.1 (h.0 on), strategy.1 h.1),
      )

  -- The decision does not depend on the blacklist: any two blacklists give the same decision and the
  -- same tracker, for every strategy, incident and state, since the rule is asked without a plan.
  decide_blacklist :
      (en : Bool) (rs : Rules) (other : List Combination) (m : Moment) (st : Strategy)
      (a : AnalysisResult) (i : Incident) (ctx : ExecutionContext) (similar : List Similar)
      (s : RuleTracker)
      → decide fl en (record rs { blacklist = other }) m st a i ctx similar s
        ≡ decide fl en rs m st a i ctx similar s
  unfolding decide apply_rules evaluate_blacklist
  decide_blacklist en rs other m st a i ctx similar s = refl
