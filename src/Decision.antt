-- ===== src/Decision.antt =====
-- app/services/decision.py: the decision service, which asks the rules and then its strategy.
pub mod Safety
pub mod Unlimited
pub mod Careful
pub mod Default
pub mod Created
pub mod Tests
use devflowfix.Base.{
  ℕ, Bool, true, false, not, ◌&&◌, ◌||◌, Option, none, some, List, [], ◌∷◌, length, is_empty, ltb,
  leb, if◌then◌else◌,
}
use devflowfix.Core.Enums.{Decimals, is_critical}
use devflowfix.Core.Incident.{Incident, service_key}
use devflowfix.Core.Context.{ExecutionContext, in_production}
use devflowfix.Limits.{Settings}
use devflowfix.Rules.Blacklist.{Combination, evaluate_blacklist}
use devflowfix.Rules.BlastRadius.{RuleTracker, RuleReadings, evaluate_blast_radius}
use devflowfix.Rules.Confidence.{Thresholds, evaluate_confidence}
use devflowfix.Rules.TimeWindow.{TimeWindow, evaluate_time_window, evaluate_environment}
use devflowfix.Strategy.{
  Strategy, AnalysisResult, Similar, DecisionResult, Reason, blocked_by_rule, blast_radius,
  production_safety, decide_strategy, apply_blast_radius_check, successes,
}

pub data RuleName : Type 0 where
  blacklist_rule blast_radius_rule time_window_rule environment_rule confidence_rule : RuleName

-- The five rules of `_initialize_rules` with their settings, the tracker of the second apart.
pub record Rules : Type 0 where
  pub blacklist : List Combination
  pub limits : Settings
  pub window : TimeWindow
  pub thresholds : Thresholds

-- What one decision reads of the clock: for the rate limits, and for the time window.
pub record Moment : Type 0 where
  pub readings : RuleReadings
  pub time_of_day : ℕ
  pub weekday : ℕ

-- `first` is the rule that failed first, if one did.
abbrev first_failing : Bool → Bool → Bool → Bool → Bool → Option RuleName
first_failing a b c d e =
    if not a
    then some blacklist_rule
    else if not b
    then some blast_radius_rule
    else if not c
    then some time_window_rule
    else if not d
    then some environment_rule
    else if not e
    then some confidence_rule
    else none

-- similar_incidents[0].get("similarity", 0), asked of a list that is not empty
abbrev pub top_similarity : List Similar → ℕ → ℕ
top_similarity [] nought = nought
top_similarity (s ∷ ss) nought = s.similarity

module _ (fl : Decimals) where
  open fl use {dec}

  -- `_apply_rules`: each rule is asked without a plan. The tracker is pruned if the second is asked.
  unfoldable pub apply_rules :
      Rules → Moment → Incident → RuleTracker → RuleTracker × Option RuleName
  apply_rules rs m i s =
      let allowed = evaluate_blacklist rs.blacklist i none in
      let (s', limited) = evaluate_blast_radius rs.limits m.readings (service_key i) s in
      (
        if allowed then s' else s,
        first_failing allowed limited (evaluate_time_window rs.window m.time_of_day m.weekday)
            evaluate_environment (evaluate_confidence fl rs.thresholds i),
      )

  unfoldable pub verify_production_safety : AnalysisResult → Incident → Bool
  verify_production_safety a i =
      if ltb a.confidence (dec 95 100)
      then false
      else if ltb (length a.similar_incidents) 2
      then false
      else if ltb (successes a.similar_incidents) 2
      then false
      else if is_critical i.severity
          && ltb (top_similarity a.similar_incidents (dec 0 100)) (dec 95 100)
      then false
      else true

  abbrev overrule : Reason → DecisionResult → DecisionResult
  overrule why d = record d { should_auto_fix = false; reason = why; requires_approval = true }

  -- The part of `decide` behind the rules: the strategy, then its blast radius, then production.
  unfoldable pub decide_allowed :
      Strategy → AnalysisResult → Incident → ExecutionContext → List Similar → DecisionResult
  unfolding verify_production_safety
  decide_allowed st a i ctx similar =
      let d = decide_strategy fl st a i ctx similar in
      let d' =
        if d.should_auto_fix && not (apply_blast_radius_check st i ctx)
        then overrule blast_radius d
        else d in
      if d'.should_auto_fix && (in_production ctx && not (verify_production_safety a i))
      then overrule production_safety d'
      else d'

  abbrev blocked : DecisionResult
  blocked = record {
    should_auto_fix = false;
    confidence = dec 0 100;
    reason = blocked_by_rule;
    requires_approval = false;
    escalate = false;
    warnings = [];
  }

  -- `decide`, with the tracker of the blast radius rule before and after.
  unfoldable pub decide :
      Bool
      → Rules
      → Moment
      → Strategy
      → AnalysisResult
      → Incident
      → ExecutionContext
      → List Similar
      → RuleTracker
      → RuleTracker × DecisionResult
  decide enable_rules rs m st a i ctx similar s =
      if enable_rules
      then (let (s', failing) = apply_rules rs m i s in
          (s', elim failing [ some _ ↦ blocked | none ↦ decide_allowed st a i ctx similar ]))
      else (s, decide_allowed st a i ctx similar)
