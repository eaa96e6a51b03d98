-- ===== src/Decision/Tests.antt =====
-- Concrete decisions for app/services/decision.py.
use devflowfix.Base.{
  refl, keep, lookup, lower, occurs, ℕ, ◌≤◌, ◌*◌, ◌/◌, ◌≡◌, ◌↔◌, true, false, none, some, [], ◌∷◌,
  arith,
}
use devflowfix.Core.Enums.{
  Environment, ApprovalStatus, auto, build_failure, is_critical, is_critical_severity,
}
use devflowfix.Core.Context.{ExecutionContext, in_production}
use devflowfix.Core.Tests.{ten_thousandths, build_broken}
use devflowfix.Rules.Blacklist.{default_blacklist}
use devflowfix.Rules.TimeWindow.{default_window}
use devflowfix.Rules.Tests.{small, busy, readings, defaults}
use devflowfix.Strategy.{
  Strategy, AnalysisResult, estimate_blast_radius, apply_blast_radius_check, successes, rate_is_low,
  top_similarities, decide_strategy,
}
use devflowfix.Decision.{Rules, Moment, decide, decide_allowed, verify_production_safety}
use devflowfix.Strategy.Conservative.{
  Scaling, conservative, conservative_confidence, conservative_trusts, doubts,
}
use devflowfix.Strategy.Tests.{mul_mono, rounded_products}
use devflowfix.Strategy.Hybrid.{
  hybrid, hybrid_confidence, hybrid_trusts, calculate_similarity_score, calculate_historical_score,
  calculate_slack_score, apply_adjustments,
}
use devflowfix.Strategy.Factory.{create_strategy}
use devflowfix.Decision.Default.{decide-default}
use devflowfix.Decision.Created.{IsKnown, create-IsKnown}
use devflowfix.Decision.Careful.{decide-conservative}
use devflowfix.Core.Incident.{get_service_name, get_namespace}
use devflowfix.Decision.Safety.{RulesPass, Justified, decide_iff}
use devflowfix.Decision.Unlimited.{Request}

abbrev pub rules : Rules
rules = record {
  blacklist = default_blacklist;
  limits = small;
  window = default_window;
  thresholds = defaults;
}

abbrev pub morning : Moment
morning = record { readings = readings; time_of_day = 36000000000; weekday = 1 }

abbrev pub trusting : Strategy
trusting = record {
  min_confidence = 8500;
  max_blast_radius = 10;
  calculate_confidence = λ a i c. a.confidence;
  should_trust_source = λ a i. true;
}

abbrev pub sure : AnalysisResult
sure = record {
  category = build_failure;
  fixability = auto;
  confidence = 9700;
  llm_confidence = none;
  similar_incidents =
      record {
        outcome = some "success";
        similarity = 9600;
        resolution_time_seconds = 120;
        age_days = none;
      }
      ∷ record {
        outcome = some "success";
        similarity = 9000;
        resolution_time_seconds = 120;
        age_days = none;
      }
      ∷ [];
  slack_threads = [];
}

abbrev pub live : ExecutionContext
live = record {
  environment = Environment.production;
  dry_run = false;
  requires_approval = false;
  approval_status = ApprovalStatus.not_required;
  approver = none;
  namespace = some "production";
  enable_rollback = true;
}

decide_iff_example :
    ((decide ten_thousandths true rules morning trusting sure build_broken live []
        busy).1.should_auto_fix
      ≡ true)
    ↔ ((true ≡ true → RulesPass ten_thousandths rules morning build_broken busy)
        × Justified ten_thousandths trusting sure build_broken live)
decide_iff_example =
    decide_iff ten_thousandths true rules morning trusting sure build_broken live [] busy

abbrev request : Request
request = record {
  moment = morning;
  strategy = trusting;
  analysis = sure;
  incident = build_broken;
  context = live;
  similar = [];
}

whole : (a : ℕ) → a * 10000 / 100 ≡ a * 100
whole a = omega arith

-- Products in ten-thousandths, rounded down.
abbrev rounded_down : Scaling ten_thousandths
rounded_down = record {
  scale = λ x n. x * n / 100;
  scale_mono = λ x y n h. let m = mul_mono x y n h in omega arith;
  scale_shrinks = λ x n h. let m = mul_mono n 100 x h in omega arith;
  scale_one = λ n. omega arith;
  scale_below = λ a b c h k l. rw (whole a, whole c) (omega arith);
}

abbrev surer : AnalysisResult
surer = record sure {
  confidence = 9900;
  similar_incidents =
      record {
        outcome = some "success";
        similarity = 9600;
        resolution_time_seconds = 120;
        age_days = none;
      }
      ∷ record {
        outcome = some "success";
        similarity = 9000;
        resolution_time_seconds = 120;
        age_days = none;
      }
      ∷ record { outcome = none; similarity = 8000; resolution_time_seconds = 120; age_days = none }
      ∷ [];
}

abbrev alone : ExecutionContext
alone = record live { namespace = none }

alone_fixed :
    (decide ten_thousandths false rules morning
      (conservative ten_thousandths rounded_down)
      surer
      build_broken
      alone
      []
      busy).1.should_auto_fix
    ≡ true
unfolding decide decide_allowed decide_strategy conservative conservative_confidence
    conservative_trusts estimate_blast_radius apply_blast_radius_check verify_production_safety
    successes keep lookup get_service_name lower occurs is_critical_severity rate_is_low
alone_fixed = refl

decide-conservative_example :
    (3 ≤ 3)
    × (estimate_blast_radius build_broken alone ≤ 5)
    × (9500 ≤ 9900)
    × (in_production alone ≡ true → is_critical build_broken.severity ≡ false)
    × (in_production alone ≡ true
        → doubts ten_thousandths rounded_down surer.llm_confidence ≡ false)
decide-conservative_example =
    decide-conservative ten_thousandths rounded_down false rules morning surer build_broken alone []
      busy (omega arith) alone_fixed

abbrev staged : ExecutionContext
staged = record alone { environment = Environment.staging }

staged_fixed :
    (decide ten_thousandths false rules morning
      (create_strategy ten_thousandths rounded_down rounded_products none none)
      sure
      build_broken
      staged
      []
      busy).1.should_auto_fix
    ≡ true
unfolding decide decide_allowed decide_strategy create_strategy hybrid hybrid_confidence
    hybrid_trusts calculate_similarity_score calculate_historical_score calculate_slack_score
    apply_adjustments top_similarities estimate_blast_radius apply_blast_radius_check successes keep
    lookup get_service_name get_namespace lower occurs is_critical_severity rate_is_low
staged_fixed = refl

decide-default_example :
    (1 ≤ successes sure.similar_incidents)
    × (estimate_blast_radius build_broken staged ≤ 10)
    × (in_production staged ≡ true → staged.dry_run ≡ true)
decide-default_example =
    decide-default ten_thousandths rounded_products rounded_down false rules morning sure
      build_broken staged [] busy (omega arith) staged_fixed

create-IsKnown_example :
    IsKnown ten_thousandths rounded_products
      (create_strategy ten_thousandths rounded_down rounded_products none none)
      sure
      staged
create-IsKnown_example =
    create-IsKnown ten_thousandths rounded_down rounded_products false rules morning sure
      build_broken staged [] busy (omega arith) (omega arith) none none staged_fixed
