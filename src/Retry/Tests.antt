-- ===== src/Retry/Tests.antt =====
-- Concrete retries for app/utils/retry.py.
use devflowfix.Base.{ℕ, zero, suc, ◌<◌, ◌≡◌, refl, true, false, [], ◌∷◌}
use devflowfix.Retry.{Policy, World, Outcome, returned, caught, retry, calculate_backoff}

abbrev three : Policy
three = record {
  max_attempts = 3;
  base_delay = 1000;
  max_delay = 60000;
  exponential = true;
  jitter = false;
}

abbrev twice_bad : ℕ → Outcome ℕ ℕ
twice_bad zero = caught 10
twice_bad (suc zero) = caught 11
twice_bad (suc (suc n)) = returned 42

abbrev flaky : World ℕ ℕ
flaky = record { behave = twice_bad; random = λ n. 0 }

abbrev broken : World ℕ ℕ
broken = record { behave = λ n. caught 7; random = λ n. 0 }

flaky_sleeps : (retry three flaky).sleeps ≡ 1000 ∷ 2000 ∷ []
unfolding retry calculate_backoff
flaky_sleeps = refl

broken_caught : (i : ℕ) → i < 3 → (e : ℕ) × (broken.behave i ≡ caught e)
broken_caught i h = (7, refl)

abbrev jittery : Policy
jittery = record three { jitter = true }
