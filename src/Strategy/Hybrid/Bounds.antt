-- ===== src/Strategy/Hybrid/Bounds.antt =====
-- app/domain/strategies/hybrid.py: how high its confidence can be.
use devflowfix.Base.{
  ℕ, ◌*◌, ◌+◌, ◌≤◌, ◌<◌, ◌≡◌, refl, Bool, true, false, List, [], ◌∷◌, length, is_empty, keep, arith,
}
use devflowfix.Core.Enums.{Decimals}
use devflowfix.Strategy.{AnalysisResult, Similar, Thread, was_success, successes}
use devflowfix.Strategy.SlackFirst.{mean_of_top}
use devflowfix.Strategy.Floats.{Floats, no_more, one_more}
use devflowfix.Strategy.Hybrid.{
  llm_signal, calculate_similarity_score, calculate_historical_score, calculate_slack_score, mul_if,
  dry, adjusted, weighted_signals,
}

empty-length : {A : Type 0} → (xs : List A) → length xs ≡ 0 → is_empty xs ≡ true
empty-length [] h = refl
empty-length (x ∷ xs) h = ground (arith, h)

module _ (fl : Decimals) (fs : Floats fl) where
  open fl use {dec}
  open fs use {mul, sum}

  -- A product with a weight of two digits.
  pub product :
      (x a w c : ℕ)
      → x ≤ dec a 100
      → a ≤ 200
      → w ≤ 200
      → a * 100 * (w * 100) < c * 10000
      → mul x (dec w 100) < dec c 10000
  product x a w c h ha hw hc =
      let da = fs.dec_digits a in
      let dw = fs.dec_digits w in
      fs.mul_below x (dec w 100) (a * 100) (w * 100) c (omega arith) (omega arith) (omega arith)
        (omega arith) hc

  shrunk : (x n : ℕ) → n ≤ 100 → mul x (dec n 100) ≤ x
  shrunk x n h = fs.mul_shrinks x (dec n 100) (fl.dec_mono n 100 h)

  pub similarity_low : (ss : List Similar) → calculate_similarity_score fl fs ss ≤ dec 95 100
  unfolding calculate_similarity_score
  similarity_low [] = fl.dec_mono 0 95 (omega arith)
  similarity_low (s ∷ ss) =
      let mean = mean_of_top fl fs 3 (s ∷ ss) in
      ground (arith, shrunk mean 90, fl.dec_mono 70 95, fl.dec_mono 75 95, fl.dec_mono 85 95)

  pub similarity_unknown :
      (ss : List Similar) → is_empty ss ≡ true → calculate_similarity_score fl fs ss ≤ dec 0 100
  unfolding calculate_similarity_score
  similarity_unknown [] h = omega arith
  similarity_unknown (s ∷ ss) h = ground (arith, h)

  pub historical_low : (ss : List Similar) → calculate_historical_score fl fs ss ≤ dec 100 100
  unfolding calculate_historical_score
  historical_low ss = ground (arith, fl.dec_mono 50 100, fl.dec_mono 30 100)

  -- Without a success, the history counts for half where nothing is known, and for less elsewhere.
  pub historical_unproven :
      (ss : List Similar)
      → successes ss ≡ 0
      → (calculate_historical_score fl fs ss ≤ dec 50 100)
        × (is_empty ss ≡ false → calculate_historical_score fl fs ss ≤ dec 30 100)
  unfolding calculate_historical_score successes
  historical_unproven ss h = ground (arith, fl.dec_mono 30 50, empty-length (keep was_success ss) h)

  slack_low : (ts : List Thread) → calculate_slack_score fl fs ts ≤ dec 90 100
  unfolding calculate_slack_score
  slack_low ts = ground (arith, fl.dec_mono 50 90, fl.dec_mono 60 90, fl.dec_mono 75 90)

  pub signals-low :
      (a : AnalysisResult) (v h c : ℕ)
      → llm_signal fl fs a ≤ dec 100 100
      → mul (calculate_similarity_score fl fs a.similar_incidents) (dec 25 100) < dec v 10000
      → mul (calculate_historical_score fl fs a.similar_incidents) (dec 30 100) < dec h 10000
      → 4402 + v + h < c
      → c ≤ 40000
      → sum (weighted_signals fl fs a) < dec c 10000
  signals-low a v h c l s r lt le =
      let llm =
        product (llm_signal fl fs a) 100 35 3501 l (omega arith) (omega arith) (omega arith) in
      let slack = calculate_slack_score fl fs a.slack_threads in
      let threads =
        product slack 90 10 901 (slack_low a.slack_threads) (omega arith) (omega arith)
          (omega arith) in
      fs.sum_below (weighted_signals fl fs a) (3501 ∷ v ∷ h ∷ 901 ∷ []) c
        (one_more (omega arith)
          (one_more (omega arith) (one_more (omega arith) (one_more (omega arith) no_more))))
        (omega arith) le (omega arith)

  mul_if-le : (b : Bool) (n x : ℕ) → n ≤ 100 → mul_if fl fs b n x ≤ x
  mul_if-le true n x h = shrunk x n h
  mul_if-le false n x h = omega arith

  -- The factors keep a sum below each decimal; a dry run is the only one that enlarges it.
  pub adjusted-proven :
      (critical shared : Bool) (x : ℕ)
      → x < dec 9780 10000
      → adjusted fl fs critical true false shared x < dec 9500 10000
  adjusted-proven critical shared x h =
      let y = mul_if fl fs critical 95 x in
      let le = mul_if-le critical 95 x (omega arith) in
      let da = fs.dec_digits 97 in
      let z = mul y (dec 97 100) in
      let lt =
        fs.mul_below y (dec 97 100) 9780 9700 9487 (omega arith) (omega arith) (omega arith)
          (omega arith) (omega arith) in
      let up = fs.dec_order 9487 9500 (omega arith) in
      let last = mul_if-le shared 90 z (omega arith) in omega arith

  pub adjusted-unproven :
      (critical live dry_run shared : Bool) (x : ℕ)
      → x < dec 7680 10000
      → adjusted fl fs critical live dry_run shared x < dec 8500 10000
  adjusted-unproven critical live dry_run shared x h =
      let y = mul_if fl fs critical 95 x in
      let z = mul_if fl fs live 97 y in
      let d = fs.dec_digits 105 in
      ground (
        arith,
        mul_if-le critical 95 x (omega arith),
        mul_if-le live 97 y (omega arith),
        fs.mul_below z (dec 105 100) 7680 10500 8065,
        fs.dec_order 8065 8500,
        fs.dec_order 7680 8500,
        mul_if-le shared 90 (dry fl fs dry_run z),
        d,
      )
