-- ===== src/Decision/Unlimited.antt =====
-- app/services/decision.py: the blast radius rule over the life of a decision service. The service
-- builds its own rule, and nothing under app/ calls `record_execution` or `record_failure`.
use devflowfix.Base.{◌<◌, ◌≡◌, refl, ap, true, List, [], ◌∷◌, String, lookup, keep, arith}
use devflowfix.Core.Enums.{Decimals}
use devflowfix.Core.Incident.{Incident, service_key}
use devflowfix.Core.Context.{ExecutionContext}
use devflowfix.Limits.{recent, cleanup_hourly, cleanup_failures}
use devflowfix.Rules.Blacklist.{evaluate_blacklist}
use devflowfix.Rules.BlastRadius.{
  RuleTracker, RuleReadings, no_records, evaluate_blast_radius, cleanup_tracker,
}
use devflowfix.Strategy.{Strategy, AnalysisResult, Similar}
use devflowfix.Decision.{Rules, Moment, apply_rules, decide}

-- The arguments of one `decide`, with the strategy set at that time.
pub record Request : Type 0 where
  pub moment : Moment
  pub strategy : Strategy
  pub analysis : AnalysisResult
  pub incident : Incident
  pub context : ExecutionContext
  pub similar : List Similar

module _ (fl : Decimals) (rs : Rules) where
  -- The tracker after a row of decisions with rules enabled.
  unfoldable pub serve : List Request → RuleTracker → RuleTracker
  serve [] s = s
  serve (q ∷ qs) s =
      serve qs (decide fl true rs q.moment q.strategy q.analysis q.incident q.context q.similar s).0

  evaluate_blast_radius-no_records :
      (r : RuleReadings) (service : String)
      → 0 < rs.limits.max_fixes_per_hour
      → 0 < rs.limits.max_fixes_per_day
      → evaluate_blast_radius rs.limits r service no_records ≡ (no_records, true)
  unfolding evaluate_blast_radius no_records cleanup_tracker cleanup_hourly cleanup_failures lookup
      keep recent
  evaluate_blast_radius-no_records r service h d = ground arith

  decide-no_records :
      (q : Request)
      → 0 < rs.limits.max_fixes_per_hour
      → 0 < rs.limits.max_fixes_per_day
      → (decide fl true rs q.moment q.strategy q.analysis q.incident q.context q.similar
          no_records).0
        ≡ no_records
  unfolding decide apply_rules evaluate_blacklist
  decide-no_records q h d =
      rw (evaluate_blast_radius-no_records q.moment.readings (service_key q.incident) h d)

  -- After any row of decisions of a new service the tracker of its blast radius rule is still empty,
  -- and the rule passes for every service at every time, if the settings allow one fix at all.
  serve_never_limits :
      (qs : List Request) (r : RuleReadings) (service : String)
      → 0 < rs.limits.max_fixes_per_hour
      → 0 < rs.limits.max_fixes_per_day
      → (serve qs no_records ≡ no_records)
        × ((evaluate_blast_radius rs.limits r service (serve qs no_records)).1 ≡ true)
  unfolding serve
  serve_never_limits [] r service h d =
      (refl, ap (λ p. p.1) (evaluate_blast_radius-no_records r service h d))
  serve_never_limits (q ∷ qs) r service h d =
      rw (decide-no_records q h d) (serve_never_limits qs r service h d)
