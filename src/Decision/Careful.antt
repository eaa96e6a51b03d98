-- ===== src/Decision/Careful.antt =====
-- app/services/decision.py with the strategy of app/domain/strategies/conservative.py.
use devflowfix.Base.{ℕ, ◌≤◌, ◌<◌, ◌≡◌, Bool, true, false, List, length, arith}
use devflowfix.Core.Enums.{Decimals, is_critical}
use devflowfix.Core.Incident.{Incident}
use devflowfix.Core.Context.{ExecutionContext, in_production}
use devflowfix.Rules.BlastRadius.{RuleTracker}
use devflowfix.Strategy.{AnalysisResult, Similar, estimate_blast_radius}
use devflowfix.Strategy.Conservative.{
  Scaling, scaled_if, few, doubts, capped, weighted, conservative_confidence, conservative,
}
use devflowfix.Decision.{Rules, Moment, decide}
use devflowfix.Decision.Safety.{decide_iff}

module _ (fl : Decimals) (sc : Scaling fl) where
  open fl use {dec}

  scaled-le : (b : Bool) (n x : ℕ) → n ≤ 100 → scaled_if fl sc b n x ≤ x
  scaled-le true n x h = sc.scale_shrinks x n h
  scaled-le false n x h = omega arith

  capped-le : (x : ℕ) → capped fl sc x ≤ x
  capped-le x = ground arith

  few_low : (b c d : Bool) (x : ℕ) → x ≤ dec 100 100 → weighted fl sc true b c d x < dec 95 100
  few_low b c d x h =
      let s = scaled_if fl sc b 95 (sc.scale x 90) in
      let u = scaled_if fl sc c 98 s in
      ground (
        arith,
        fl.dec_strict 90 95,
        sc.scale_one 90,
        sc.scale_mono x (dec 100 100) 90 h,
        scaled-le b 95 (sc.scale x 90),
        scaled-le c 98 s,
        scaled-le d 96 u,
        capped-le (scaled_if fl sc d 96 u),
      )

  critical_live_low :
      (b d : Bool) (x : ℕ) → x ≤ dec 100 100 → weighted fl sc b true true d x < dec 95 100
  critical_live_low b d x h =
      let y = scaled_if fl sc b 90 x in
      let z = sc.scale y 95 in
      ground (
        arith,
        sc.scale_one 95,
        sc.scale_below 95 98 95,
        scaled-le b 90 x,
        sc.scale_mono y (dec 100 100) 95,
        sc.scale_mono z (dec 95 100) 98,
        scaled-le d 96 (sc.scale z 98),
        capped-le (scaled_if fl sc d 96 (sc.scale z 98)),
      )

  live_doubted_low :
      (b c : Bool) (x : ℕ) → x ≤ dec 100 100 → weighted fl sc b c true true x < dec 95 100
  live_doubted_low b c x h =
      let w = scaled_if fl sc b 90 x in
      let y = scaled_if fl sc c 95 w in
      let z = sc.scale y 98 in
      ground (
        arith,
        sc.scale_one 98,
        sc.scale_below 98 96 95,
        scaled-le b 90 x,
        scaled-le c 95 w,
        sc.scale_mono y (dec 100 100) 98,
        sc.scale_mono z (dec 98 100) 96,
        capped-le (sc.scale z 96),
      )

  weighted-le : (b c d e : Bool) (x : ℕ) → weighted fl sc b c d e x ≤ x
  weighted-le b c d e x =
      let y = scaled_if fl sc b 90 x in
      let z = scaled_if fl sc c 95 y in
      let u = scaled_if fl sc d 98 z in
      ground (
        arith,
        scaled-le b 90 x,
        scaled-le c 95 y,
        scaled-le d 98 z,
        scaled-le e 96 u,
        capped-le (scaled_if fl sc e 96 u),
      )

  confident :
      (a : AnalysisResult) (i : Incident) (ctx : ExecutionContext)
      → a.confidence ≤ dec 100 100
      → dec 95 100 ≤ conservative_confidence fl sc a i ctx
      → (3 ≤ length a.similar_incidents)
        × (dec 95 100 ≤ a.confidence)
        × (in_production ctx ≡ true → is_critical i.severity ≡ false)
        × (in_production ctx ≡ true → doubts fl sc a.llm_confidence ≡ false)
  unfolding conservative_confidence
  confident a i ctx h k =
      let f = few fl sc a in
      let c = is_critical i.severity in
      let p = in_production ctx in
      let d = doubts fl sc a.llm_confidence in
      ground (
        arith,
        few_low c p d a.confidence h,
        critical_live_low f d a.confidence h,
        live_doubted_low f c a.confidence h,
        weighted-le f c p d a.confidence,
      )

  -- The conservative strategy is stricter than its thresholds say. With a confidence of the analysis
  -- of at most 1.0 and any rules, `decide` answers with an automatic fix only where three similar
  -- incidents are known, the estimated blast radius is at most 5, and the confidence is at least 0.95;
  -- and in production never for a critical incident, nor where the language model gave a confidence
  -- above 0 and below 0.9.
  pub decide-conservative :
      (en : Bool) (rs : Rules) (m : Moment) (a : AnalysisResult) (i : Incident)
      (ctx : ExecutionContext) (similar : List Similar) (s : RuleTracker)
      → a.confidence ≤ dec 100 100
      → (decide fl en rs m (conservative fl sc) a i ctx similar s).1.should_auto_fix ≡ true
      → (3 ≤ length a.similar_incidents)
        × (estimate_blast_radius i ctx ≤ 5)
        × (dec 95 100 ≤ a.confidence)
        × (in_production ctx ≡ true → is_critical i.severity ≡ false)
        × (in_production ctx ≡ true → doubts fl sc a.llm_confidence ≡ false)
  unfolding conservative
  decide-conservative en rs m a i ctx similar s h auto =
      let j = ((decide_iff fl en rs m (conservative fl sc) a i ctx similar s).0 auto).1 in
      let (known, high, calm, sure) = confident a i ctx h j.confident in
      (known, j.contained, high, calm, sure)
