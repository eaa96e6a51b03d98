-- ===== src/Breaker/Traces.antt =====
-- app/utils/circuit_breaker.py, seen by a caller that makes one call after another.
use devflowfix.Base.{
  ℕ, suc, ◌+◌, ◌<◌, ◌≡◌, refl, Bool, true, false, List, [], ◌∷◌, arith, if◌then◌else◌,
}
use devflowfix.Breaker.{
  closed, open_, Config, Stats, Outcome, returned, failed, not_found, unexpected, new, call, raised,
}

-- One call: its four clock readings and what the wrapped function does if it runs.
pub record Call (A : Type 0) : Type 0 where
  pub checked : ℕ
  pub probed : ℕ
  pub ended : ℕ
  pub changed : ℕ
  pub outcome : Outcome A

abbrev pub HasCounted : ℕ → Stats → Type 0
HasCounted n s = (s.state ≡ closed) × (s.failure_count ≡ n)

new-HasCounted : (now : ℕ) → HasCounted 0 (new now)
unfolding new
new-HasCounted now = (refl, refl)

module _ {A : Type 0} where
  unfoldable pub make : Config → Call A → Stats → Stats
  make c k s = (call c k.checked k.probed k.ended k.changed k.outcome s).0

  unfoldable pub run : Config → List (Call A) → Stats → Stats
  unfolding make
  run c [] s = s
  run c (k ∷ ks) s = run c ks (make c k s)

  abbrev pub counts_as_failure : Outcome A → Bool
  counts_as_failure failed = true
  counts_as_failure _ = false

  -- How many of the calls raise an exception that the breaker counts.
  unfoldable pub failures : List (Call A) → ℕ
  failures [] = 0
  failures (k ∷ ks) = if counts_as_failure k.outcome then suc (failures ks) else failures ks

  module _ (c : Config) where
    call-HasCounted :
        (o : Outcome A) (t₁ t₂ t₃ t₄ : ℕ) (s : Stats) (n : ℕ)
        → HasCounted n s
        → n + (if counts_as_failure o then 1 else 0) < c.failure_threshold
        → HasCounted (n + (if counts_as_failure o then 1 else 0)) (call c t₁ t₂ t₃ t₄ o s).0
    unfolding call
    call-HasCounted (returned a) t₁ t₂ t₃ t₄ s n h l = ground arith
    call-HasCounted failed t₁ t₂ t₃ t₄ s n h l = ground arith
    call-HasCounted not_found t₁ t₂ t₃ t₄ s n h l = ground arith
    call-HasCounted unexpected t₁ t₂ t₃ t₄ s n h l = ground arith

    run-HasCounted :
        (ks : List (Call A)) (s : Stats) (n : ℕ)
        → HasCounted n s
        → n + failures ks < c.failure_threshold
        → HasCounted (n + failures ks) (run c ks s)
    unfolding run failures
    run-HasCounted [] s n h l = ground arith
    run-HasCounted (k ∷ ks) s n h l = ground (
      arith,
      call-HasCounted k.outcome k.checked k.probed k.ended k.changed s n h (ground arith),
      run-HasCounted ks (make c k s) (n + (if counts_as_failure k.outcome then 1 else 0)),
    )

    -- A closed breaker counts failures whatever succeeds between them, and opens at the one that
    -- reaches the threshold. From a new breaker, after calls of which one failure fewer than the
    -- threshold counted, it is still closed with their number on record; a further failing call
    -- opens it, and hands its caller the exception.
    run-trips :
        (now : ℕ) (ks : List (Call A)) (t₁ t₂ t₃ t₄ : ℕ)
        → suc (failures ks) ≡ c.failure_threshold
        → let s = run c ks (new now) in
          (s.state ≡ closed)
          × (s.failure_count ≡ failures ks)
          × ((call {A = A} c t₁ t₂ t₃ t₄ failed s).0.state ≡ open_)
          × ((call {A = A} c t₁ t₂ t₃ t₄ failed s).1 ≡ raised)
    unfolding call
    run-trips now ks t₁ t₂ t₃ t₄ e =
        ground (arith, run-HasCounted ks (new now) 0 (new-HasCounted now))
