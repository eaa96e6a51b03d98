-- ===== src/Breaker.antt =====
-- app/utils/circuit_breaker.py: the circuit breaker round the calls of an external service.
-- A wrapped call is split where it awaits its function: `enter` runs before, `leave` after, and in
-- between other calls of the same breaker may run. Times are clock readings in one fixed unit.
pub mod Invariant
pub mod Traces
pub mod Recovery
mod Tests
use devflowfix.Base.{
  ℕ, suc, ◌+◌, ◌-◌, Bool, true, false, ◌&&◌, Option, none, some, ltb, leb, if◌then◌else◌,
}

pub data CircuitState : Type 0 where
  closed open_ half_open : CircuitState

pub record Config : Type 0 where
  pub failure_threshold : ℕ
  pub success_threshold : ℕ
  pub timeout : ℕ

pub record Stats : Type 0 where
  pub state : CircuitState
  pub failure_count : ℕ
  pub success_count : ℕ
  pub last_failure_time : Option ℕ
  pub last_state_change : ℕ
  pub total_requests : ℕ
  pub total_failures : ℕ
  pub total_successes : ℕ

-- `CircuitBreakerStats()`, built at time `now`
unfoldable pub new : ℕ → Stats
new now = record {
  state = closed;
  failure_count = 0;
  success_count = 0;
  last_failure_time = none;
  last_state_change = now;
  total_requests = 0;
  total_failures = 0;
  total_successes = 0;
}

abbrev pub is_closed : CircuitState → Bool
is_closed closed = true
is_closed _ = false

abbrev pub is_open : CircuitState → Bool
is_open open_ = true
is_open _ = false

abbrev pub is_half_open : CircuitState → Bool
is_half_open half_open = true
is_half_open _ = false

transition_to_open : ℕ → Stats → Stats
transition_to_open now s = record s { state = open_; last_state_change = now }

transition_to_half_open : ℕ → Stats → Stats
transition_to_half_open now s = record s {
  state = half_open;
  success_count = 0;
  last_state_change = now;
}

transition_to_closed : ℕ → Stats → Stats
transition_to_closed now s = record s {
  state = closed;
  failure_count = 0;
  success_count = 0;
  last_state_change = now;
}

-- now - last >= timeout, over readings of which `now` may also be the earlier one
abbrev elapsed : ℕ → ℕ → ℕ → Bool
elapsed timeout now last = leb (last + timeout) now

abbrev since_failure : ℕ → ℕ → Option ℕ → Bool
since_failure timeout now none = false
since_failure timeout now (some last) = elapsed timeout now last

unfoldable pub should_attempt_reset : Config → ℕ → Stats → Bool
should_attempt_reset c now s = since_failure c.timeout now s.last_failure_time

-- The part of a wrapped call before its function runs; `false` is `CircuitBreakerOpenError`. The
-- clock is read once for the test and once for the change of state.
unfoldable pub enter : Config → ℕ → ℕ → Stats → Stats × Bool
unfolding should_attempt_reset transition_to_half_open
enter c now now' s =
    let t = record s { total_requests = s.total_requests + 1 } in
    if is_open t.state
    then (if should_attempt_reset c now t
        then (transition_to_half_open now' t, true)
        else (t, false))
    else (t, true)

unfoldable pub on_success : Config → ℕ → Stats → Stats
unfolding transition_to_closed
on_success c now s =
    let t = record s { total_successes = s.total_successes + 1 } in
    if is_half_open t.state
    then (let u = record t { success_count = t.success_count + 1 } in
        if leb c.success_threshold u.success_count then transition_to_closed now u else u)
    else t

unfoldable pub on_failure : Config → ℕ → ℕ → Stats → Stats
unfolding transition_to_open
on_failure c now now' s =
    let t = record s {
      total_failures = s.total_failures + 1;
      failure_count = s.failure_count + 1;
      last_failure_time = some now;
    } in
    if is_half_open t.state
    then transition_to_open now' t
    else if leb c.failure_threshold t.failure_count
    then transition_to_open now' t
    else t

-- What the wrapped function did: it returned, raised an exception of `expected_exception`, raised
-- such an exception that is a `GitHubAPIError` of status 404, or raised another one.
pub data Outcome {ℓ} (A : Type ℓ) : Type ℓ where
  returned : A → Outcome A
  failed not_found unexpected : Outcome A

-- The part of a wrapped call after its function ran. What the function raised is raised again.
unfoldable pub leave {ℓ} : {A : Type ℓ} → Config → ℕ → ℕ → Outcome A → Stats → Stats
unfolding on_success on_failure
leave c now now' (returned a) s = on_success c now s
leave c now now' failed s = on_failure c now now' s
leave c now now' not_found s = s
leave c now now' unexpected s = s

pub data Reply {ℓ} (A : Type ℓ) : Type ℓ where
  result : A → Reply A
  raised circuit_open : Reply A

abbrev pub reply {ℓ} : {A : Type ℓ} → Outcome A → Reply A
reply (returned a) = result a
reply _ = raised

-- `_call_sync`, and `_call_async` where no other call runs while it awaits. Four clock readings.
unfoldable pub call {ℓ} :
    {A : Type ℓ} → Config → ℕ → ℕ → ℕ → ℕ → Outcome A → Stats → Stats × Reply A
unfolding enter leave
call c t₁ t₂ t₃ t₄ o s =
    let (s', admitted) = enter c t₁ t₂ s in
    if admitted then (leave c t₃ t₄ o s', reply o) else (s', circuit_open)

unfoldable pub reset : Stats → Stats
reset s = record s {
  state = closed;
  failure_count = 0;
  success_count = 0;
  last_failure_time = none;
}
