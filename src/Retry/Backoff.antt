-- ===== src/Retry/Backoff.antt =====
-- app/utils/retry.py, `calculate_backoff`: the bounds and the growth of a delay.
use devflowfix.Base.{ℕ, ◌+◌, ◌*◌, ◌^◌, ◌≤◌, ◌<◌, false, arith}
use native.Mathlib.Nat.{pow-suc}
use native.Mathlib.Numerals.{towards_suc}
use devflowfix.Retry.{Policy, calculate_backoff, jittered, random_steps, smaller}

jittered_bounds : (r d : ℕ) → r < random_steps → (d ≤ 2 * jittered r d + 1) × (jittered r d ≤ d)
unfolding jittered
jittered_bounds r d h =
    let below : d * r ≤ d * random_steps = grind arith in (omega arith, omega arith)

-- `calculate_backoff` without its jitter.
abbrev pub plain : Policy → Policy
plain p = record p { jitter = false }

-- A delay is at most the largest delay, and with any random number below 1 at least half of the
-- delay without jitter, less the tick that rounding may take.
calculate_backoff_bounds :
    (p : Policy) (r attempt : ℕ)
    → r < random_steps
    → (calculate_backoff p r attempt ≤ p.max_delay)
      × (calculate_backoff p r attempt ≤ calculate_backoff (plain p) r attempt)
      × (calculate_backoff (plain p) r attempt ≤ 2 * calculate_backoff p r attempt + 1)
unfolding calculate_backoff
calculate_backoff_bounds p r attempt h = ground (
  arith,
  jittered_bounds r (smaller (p.base_delay * 2 ^ attempt) p.max_delay) h,
  jittered_bounds r (smaller (p.base_delay * (attempt + 1)) p.max_delay) h,
)

doubled-le : (b n : ℕ) → b * 2 ^ n ≤ b * 2 ^ (n + 1)
doubled-le b n = simp towards_suc (rw pow-suc (grind arith))

mul_mono_right : (b n : ℕ) → b * n ≤ b * (n + 1)
mul_mono_right b n = grind arith

-- Without jitter the delays never fall from one attempt to the next.
calculate_backoff_mono :
    (p : Policy) (r r' attempt : ℕ)
    → calculate_backoff (plain p) r attempt ≤ calculate_backoff (plain p) r' (attempt + 1)
unfolding calculate_backoff
calculate_backoff_mono p r r' attempt =
    ground (arith, doubled-le p.base_delay attempt, mul_mono_right p.base_delay (attempt + 1))
