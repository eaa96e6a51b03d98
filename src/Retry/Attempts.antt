-- ===== src/Retry/Attempts.antt =====
-- app/utils/retry.py: what `retry_sync` and `retry_async` do, for every behaviour of the function.
use devflowfix.Base.{
  ℕ, zero, suc, ◌+◌, ◌-◌, ◌≤◌, ◌<◌, ◌≡◌, Option, none, some, List, [], ◌∷◌, arith, ◌∙◌, lt→ltb,
}
use devflowfix.Retry.{
  Policy, World, Run, Outcome, returned, caught, uncaught, Reply, result, raised, retry, attempts,
  round, calculate_backoff,
}

-- The function raised an exception that is caught.
abbrev pub IsCaught : {A E : Type 0} → Outcome A E → Type 0
IsCaught {E} o = (e : E) × (o ≡ caught e)

-- The reply of a run that ends with such an attempt.
abbrev pub ending : {A E : Type 0} → Outcome A E → Option (Reply A E)
ending (returned a) = some (result a)
ending (uncaught e) = some (raised e)
ending (caught e) = none

module _ {A E : Type 0} (p : Policy) (w : World A E) where
  -- The delays of `n` attempts in a row, from one on.
  unfoldable pub delays : ℕ → ℕ → List ℕ
  delays zero a = []
  delays (suc n) a = calculate_backoff p (w.random a) a ∷ delays n (a + 1)

  round_goes_on :
      (a : ℕ) (o : Outcome A E) (e : E) (rest : E → Run A E)
      → o ≡ caught e
      → a < p.max_attempts - 1
      → round p w a o rest ≡ record (rest e) {
        calls = (rest e).calls + 1;
        sleeps = calculate_backoff p (w.random a) a ∷ (rest e).sleeps;
      }
  round_goes_on a o e rest c l = rw (c, lt→ltb _ _ l)

  attempts_exhausted :
      (left a n : ℕ) (last : Option E) (e : E)
      → a + suc left ≡ p.max_attempts
      → ((i : ℕ) → a ≤ i → i < p.max_attempts → IsCaught (w.behave i))
      → n + 1 ≡ p.max_attempts
      → w.behave n ≡ caught e
      → attempts p w (suc left) a last
        ≡ record { calls = suc left; sleeps = delays left a; reply = raised e }
  unfolding attempts delays
  attempts_exhausted zero a n last e m h u o =
      let here : n ≡ a = omega arith in
      let c : w.behave a ≡ caught e = rw here at o in rw c (ground arith)
  attempts_exhausted (suc left) a n last e m h u o =
      let (x, c) = h a (omega arith) (omega arith) in
      let rest =
        attempts_exhausted left (a + 1) n (some x) e (omega arith) (λ i k l. h i (omega arith) l) u
          o in
      round_goes_on a (w.behave a) x (λ y. attempts p w (suc left) (a + 1) (some y)) c (omega arith)
      ∙ rw rest (ground arith)

  -- If all attempts raise caught exceptions, and there is at least one, the function is called that
  -- often, a delay is slept after each attempt but the last, and the last exception is raised.
  retry_exhausted :
      (n : ℕ) (e : E)
      → n + 1 ≡ p.max_attempts
      → ((i : ℕ) → i < p.max_attempts → IsCaught (w.behave i))
      → w.behave n ≡ caught e
      → retry p w ≡ record { calls = n + 1; sleeps = delays n 0; reply = raised e }
  unfolding retry attempts
  retry_exhausted n e u h o =
      let m : p.max_attempts ≡ suc n = omega arith in
      let e' : suc n ≡ n + 1 = omega arith in
      cc (m, e', attempts_exhausted n 0 n none e (omega arith) (λ i _ l. h i l) u o)
