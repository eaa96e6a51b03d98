-- ===== src/Breaker/Recovery.antt =====
-- app/utils/circuit_breaker.py: how an open breaker refuses calls, and how it closes again.
use devflowfix.Base.{ℕ, ◌+◌, ◌≤◌, ◌<◌, ◌≡◌, refl, some, List, [], ◌∷◌, length, ◌≢◌, arith}
use devflowfix.Breaker.{
  closed, open_, half_open, Config, Stats, Outcome, returned, failed, not_found, unexpected, call,
  circuit_open, raised,
}
use devflowfix.Breaker.Traces.{Call, make, run}

abbrev pub Succeeds : {A : Type 0} → List (Call A) → Type 0
Succeeds [] = Unit
Succeeds {A} (k ∷ ks) = ((a : A) × (k.outcome ≡ returned a)) × Succeeds ks

abbrev pub IsReset : Stats → Type 0
IsReset s = (s.state ≡ closed) × (s.failure_count ≡ 0) × (s.success_count ≡ 0)

module _ {A : Type 0} (c : Config) where
  probe-ne-open :
      (s : Stats) (last t₁ t₂ t₃ t₄ : ℕ) (o : Outcome A)
      → s.state ≡ open_
      → s.last_failure_time ≡ some last
      → last + c.timeout ≤ t₁
      → o ≢ failed
      → (call c t₁ t₂ t₃ t₄ o s).0.state ≢ open_
  unfolding call
  probe-ne-open s last t₁ t₂ t₃ t₄ (returned a) e f l n = ground arith
  probe-ne-open s last t₁ t₂ t₃ t₄ failed e f l n = absurd (n refl)
  probe-ne-open s last t₁ t₂ t₃ t₄ not_found e f l n = ground arith
  probe-ne-open s last t₁ t₂ t₃ t₄ unexpected e f l n = ground arith

  -- An open breaker whose last failure is younger than the timeout refuses every call and changes
  -- nothing but the number of requests. Once the timeout has passed it lets a call through: a
  -- failure that counts opens it again, with the new time of failure, and the caller gets the
  -- exception; after any other outcome it is not open.
  call-open :
      (s : Stats) (last t₁ t₂ t₃ t₄ : ℕ) (o : Outcome A)
      → s.state ≡ open_
      → s.last_failure_time ≡ some last
      → let r = call c t₁ t₂ t₃ t₄ o s in
        (t₁ < last + c.timeout
          → r ≡ (record s { total_requests = s.total_requests + 1 }, circuit_open))
        × (last + c.timeout ≤ t₁
            → o ≡ failed
            → (r.0.state ≡ open_) × (r.0.last_failure_time ≡ some t₃) × (r.1 ≡ raised))
        × (last + c.timeout ≤ t₁ → o ≢ failed → r.0.state ≢ open_)
  unfolding call
  call-open s last t₁ t₂ t₃ t₄ o e f =
      (ground arith, ground arith, probe-ne-open s last t₁ t₂ t₃ t₄ o e f)

  success-half_open :
      (t₁ t₂ t₃ t₄ : ℕ) (a : A) (s : Stats)
      → s.state ≡ half_open
      → let t = (call c t₁ t₂ t₃ t₄ (returned a) s).0 in
        (s.success_count + 1 < c.success_threshold
          → (t.state ≡ half_open) × (t.success_count ≡ s.success_count + 1))
        × (c.success_threshold ≤ s.success_count + 1 → IsReset t)
  unfolding call
  success-half_open t₁ t₂ t₃ t₄ a s e = ground arith

  success-open :
      (last t₁ t₂ t₃ t₄ : ℕ) (a : A) (s : Stats)
      → s.state ≡ open_
      → s.last_failure_time ≡ some last
      → last + c.timeout ≤ t₁
      → let t = (call c t₁ t₂ t₃ t₄ (returned a) s).0 in
        (1 < c.success_threshold → (t.state ≡ half_open) × (t.success_count ≡ 1))
        × (c.success_threshold ≤ 1 → IsReset t)
  unfolding call
  success-open last t₁ t₂ t₃ t₄ a s e f l = ground arith

  make_of_returned :
      (k : Call A) (a : A) (s : Stats)
      → k.outcome ≡ returned a
      → make c k s ≡ (call c k.checked k.probed k.ended k.changed (returned a) s).0
  unfolding make
  make_of_returned k a s e = rw e

  half_open_closes :
      (ks : List (Call A)) (s : Stats)
      → Succeeds ks
      → s.state ≡ half_open
      → s.success_count < c.success_threshold
      → s.success_count + length ks ≡ c.success_threshold
      → IsReset (run c ks s)
  unfolding run
  half_open_closes [] s h e l n = absurd (omega arith)
  half_open_closes (k ∷ []) s ((a, r), h) e l n =
      rw (make_of_returned k a s r, run)
        ((success-half_open k.checked k.probed k.ended k.changed a s e).1 (omega arith))
  half_open_closes (k ∷ j ∷ ks) s ((a, r), h) e l n =
      let step = (success-half_open k.checked k.probed k.ended k.changed a s e).0 (omega arith) in
      rw (make_of_returned k a s r, run)
        (half_open_closes (j ∷ ks) _ h step.0 (omega arith) (omega arith))

  -- Recovery: an open breaker whose timeout has passed at the first of as many successful calls in
  -- a row as its success threshold is closed after them, with both counts at zero.
  pub run-recovers :
      (k : Call A) (ks : List (Call A)) (s : Stats) (last : ℕ)
      → s.state ≡ open_
      → s.last_failure_time ≡ some last
      → last + c.timeout ≤ k.checked
      → Succeeds (k ∷ ks)
      → length (k ∷ ks) ≡ c.success_threshold
      → IsReset (run c (k ∷ ks) s)
  unfolding run
  run-recovers k [] s last e f l ((a, r), h) n =
      rw (make_of_returned k a s r, run)
        ((success-open last k.checked k.probed k.ended k.changed a s e f l).1 (omega arith))
  run-recovers k (j ∷ ks) s last e f l ((a, r), h) n =
      let step =
        (success-open last k.checked k.probed k.ended k.changed a s e f l).0 (omega arith) in
      rw (make_of_returned k a s r, run)
        (half_open_closes (j ∷ ks) _ h step.0 (omega arith) (omega arith))
