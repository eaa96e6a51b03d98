-- ===== src/Retry.antt =====
-- app/utils/retry.py: retries with backoff. A delay is a number of clock ticks, the random number of
-- the jitter a fraction r / 2^53 with r < 2^53, and the jittered delay is rounded down to a tick.
pub mod Backoff
pub mod Attempts
mod Tests
use devflowfix.Base.{
  ℕ, zero, suc, ◌+◌, ◌-◌, ◌*◌, ◌/◌, ◌^◌, Bool, true, false, Option, none, some, List, [], ◌∷◌, ltb,
  leb, if◌then◌else◌,
}

abbrev pub smaller : ℕ → ℕ → ℕ
smaller a b = if leb a b then a else b

abbrev pub random_steps : ℕ
random_steps = 2 ^ 53

-- delay * (0.5 + r / 2^53 * 0.5)
unfoldable pub jittered : ℕ → ℕ → ℕ
jittered r delay = delay * (random_steps + r) / (2 * random_steps)

pub record Policy : Type 0 where
  pub max_attempts : ℕ
  pub base_delay : ℕ
  pub max_delay : ℕ
  pub exponential : Bool
  pub jitter : Bool

unfoldable pub calculate_backoff : Policy → ℕ → ℕ → ℕ
unfolding jittered
calculate_backoff p r attempt =
    let delay =
      if p.exponential then p.base_delay * 2 ^ attempt else p.base_delay * (attempt + 1) in
    let capped = smaller delay p.max_delay in if p.jitter then jittered r capped else capped

-- What the function does at one attempt: it returns, raises an exception that `exceptions` names, or
-- raises another one.
pub data Outcome (A E : Type 0) : Type 0 where
  returned : A → Outcome A E
  caught : E → Outcome A E
  uncaught : E → Outcome A E

-- `raise_none` is the `TypeError` of `raise last_exception` where no attempt was made.
pub data Reply (A E : Type 0) : Type 0 where
  result : A → Reply A E
  raised : E → Reply A E
  raise_none : Reply A E

-- What a run leaves behind: the number of calls, the delays slept, oldest first, and the reply.
pub record Run (A E : Type 0) : Type 0 where
  pub calls : ℕ
  pub sleeps : List ℕ
  pub reply : Reply A E

abbrev pub raise_last : {A E : Type 0} → Option E → Reply A E
raise_last none = raise_none
raise_last (some e) = raised e

-- The function at each attempt, and the random number that its delay would use.
pub record World (A E : Type 0) : Type 0 where
  pub behave : ℕ → Outcome A E
  pub random : ℕ → ℕ

module _ {A E : Type 0} (p : Policy) (w : World A E) where
  abbrev sleep_then : ℕ → Run A E → Run A E
  sleep_then delay rest = record rest { calls = rest.calls + 1; sleeps = delay ∷ rest.sleeps }

  -- The body of one round, `rest` being the rounds after it.
  abbrev round : ℕ → Outcome A E → (E → Run A E) → Run A E
  round attempt (returned a) rest = record { calls = 1; sleeps = []; reply = result a }
  round attempt (uncaught e) rest = record { calls = 1; sleeps = []; reply = raised e }
  round attempt (caught e) rest =
      if ltb attempt (p.max_attempts - 1)
      then sleep_then (calculate_backoff p (w.random attempt) attempt) (rest e)
      else record (rest e) { calls = (rest e).calls + 1 }

  -- `for attempt in range(max_attempts)`, with the rounds left and the last exception.
  unfoldable pub attempts : ℕ → ℕ → Option E → Run A E
  attempts zero attempt last = record { calls = 0; sleeps = []; reply = raise_last last }
  attempts (suc left) attempt last =
      round attempt (w.behave attempt) (λ e. attempts left (attempt + 1) (some e))

  -- `retry_sync` and `retry_async`.
  unfoldable pub retry : Run A E
  unfolding attempts
  retry = attempts p.max_attempts 0 none
