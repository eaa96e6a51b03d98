-- ===== src/Strategy.antt =====
-- app/domain/strategies/base.py: the decision that all strategies share. What a concrete strategy
-- computes, its confidence and its trust in the source, is a field of `Strategy`.
pub mod Conservative
pub mod Floats
pub mod SlackFirst
pub mod Hybrid
pub mod VectorDb
pub mod Factory
pub mod Tests
use Prim.Native.String.{String}
use devflowfix.Base.{
  ℕ, zero, suc, ◌*◌, Bool, true, false, not, ◌&&◌, Option, none, some, List, [], ◌∷◌, str_eq,
  length, is_empty, keep, ltb, if◌then◌else◌, lower, codes, occurs, truthy,
}
use devflowfix.Core.Enums.{FailureType, Decimals, Fixability, auto, is_critical_severity}
use devflowfix.Core.Incident.{Incident, get_service_name}
use devflowfix.Core.Context.{ExecutionContext, in_production}

-- What the strategies read of a similar incident: `similarity` is 0 and `resolution_time_seconds` is
-- 300 where the entry has none, and `age_days` are the whole days since its `resolved_at`, where that
-- is a text. None as a value there, and a text that is no date with a time zone, make the code raise.
pub record Similar : Type 0 where
  pub outcome : Option String
  pub similarity : ℕ
  pub resolution_time_seconds : ℕ
  pub age_days : Option ℕ

-- What they read of a thread of Slack; `printed` is str(thread).
pub record Thread : Type 0 where
  pub resolved : Bool
  pub has_steps : Bool
  pub printed : String

pub record AnalysisResult : Type 0 where
  pub category : FailureType
  pub fixability : Fixability
  pub confidence : ℕ
  pub llm_confidence : Option ℕ
  pub similar_incidents : List Similar
  pub slack_threads : List Thread

-- Floats that the decision compares with; `confidence` is a float as in `Core.Enums`.
pub record Strategy : Type 0 where
  pub min_confidence : ℕ
  pub max_blast_radius : ℕ
  pub calculate_confidence : AnalysisResult → Incident → ExecutionContext → ℕ
  pub should_trust_source : AnalysisResult → Incident → Bool

pub data Reason : Type 0 where
  not_auto below_threshold production_confidence all_criteria_met blast_radius : Reason
  production_safety blocked_by_rule : Reason

pub data Warning : Type 0 where
  source_not_trusted low_success_rate : Warning

pub record DecisionResult : Type 0 where
  pub should_auto_fix : Bool
  pub confidence : ℕ
  pub reason : Reason
  pub requires_approval : Bool
  pub escalate : Bool
  pub warnings : List Warning

abbrev pub is_auto : Fixability → Bool
is_auto auto = true
is_auto _ = false

-- inc.get("outcome") == "success"
abbrev pub was_success : Similar → Bool
was_success s = elim s.outcome [ none ↦ false | some o ↦ str_eq o "success" ]

-- [inc.get("similarity", 0) for inc in incidents[:n]]
unfoldable pub top_similarities : ℕ → List Similar → List ℕ
top_similarities n [] = []
top_similarities zero (s ∷ ss) = []
top_similarities (suc n) (s ∷ ss) = s.similarity ∷ top_similarities n ss

unfoldable pub successes : List Similar → ℕ
successes ss = length (keep was_success ss)

-- `_calculate_success_rate(ss) < 0.7`, over whole numbers
unfoldable pub rate_is_low : List Similar → Bool
unfolding successes
rate_is_low ss = ltb (10 * successes ss) (7 * length ss)

module _ (fl : Decimals) where
  open fl use {dec}

  unfoldable pub decide_strategy :
      Strategy → AnalysisResult → Incident → ExecutionContext → List Similar → DecisionResult
  unfolding rate_is_low
  decide_strategy s a i ctx similar =
      let confidence = s.calculate_confidence a i ctx in
      if not (is_auto a.fixability)
      then record {
        should_auto_fix = false;
        confidence = dec 0 100;
        reason = not_auto;
        requires_approval = false;
        escalate = true;
        warnings = [];
      }
      else if ltb confidence s.min_confidence
      then record {
        should_auto_fix = false;
        confidence = confidence;
        reason = below_threshold;
        requires_approval = true;
        escalate = false;
        warnings = [];
      }
      else if in_production ctx && ltb confidence (dec 95 100)
      then record {
        should_auto_fix = false;
        confidence = confidence;
        reason = production_confidence;
        requires_approval = true;
        escalate = false;
        warnings = [];
      }
      else record {
        should_auto_fix = true;
        confidence = confidence;
        reason = all_criteria_met;
        requires_approval = ctx.requires_approval;
        escalate = false;
        warnings =
            if s.should_trust_source a i
            then (if not (is_empty similar) && rate_is_low similar
                then low_success_rate ∷ []
                else [])
            else (if not (is_empty similar) && rate_is_low similar
                then source_not_trusted ∷ low_success_rate ∷ []
                else source_not_trusted ∷ []);
      }

abbrev names_api : Option String → Bool
names_api none = false
names_api (some s) = truthy (some s) && occurs (codes "api") (lower s)

abbrev is_named : String → Option String → Bool
is_named s none = false
is_named s (some t) = str_eq t s

unfoldable pub estimate_blast_radius : Incident → ExecutionContext → ℕ
estimate_blast_radius i ctx =
    let namespaced = if is_named "production" ctx.namespace then 3 else 1 in
    let severe = if is_critical_severity i.severity then namespaced * 2 else namespaced in
    if names_api (get_service_name i) then severe * 2 else severe

unfoldable pub apply_blast_radius_check : Strategy → Incident → ExecutionContext → Bool
apply_blast_radius_check s i ctx =
    if ltb s.max_blast_radius (estimate_blast_radius i ctx) then false else true
