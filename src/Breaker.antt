-- ===== src/Breaker.antt =====
-- src/aegis_gateway/providers/circuit_breaker.py: the per-provider circuit breaker. `time.monotonic()` is
-- the argument `now`, in any unit. The lock makes each method one step.
pub mod Invariant
pub mod Laws
pub mod Tests
use aegis_gateway.Prelude.{ℕ, ◌+◌, Bool, true, false, ◌||◌, Option, none, some, leb, if◌then◌else◌}

pub data CircuitState : Type 0 where
  closed opened half_open : CircuitState

pub record Breaker : Type 0 where
  pub failure_threshold : ℕ
  pub recovery_timeout : ℕ
  pub state : CircuitState
  pub failure_count : ℕ
  pub opened_at : Option ℕ
  pub half_open_probe_in_flight : Bool

-- What `before_call` does: return, raise `CircuitOpenError` (of two messages), or fail its `assert`.
pub data Admission : Type 0 where
  admitted refused_open refused_probing assertion_failed : Admission

unfoldable pub new : ℕ → ℕ → Breaker
new failure_threshold recovery_timeout = record {
  failure_threshold = failure_threshold;
  recovery_timeout = recovery_timeout;
  state = closed;
  failure_count = 0;
  opened_at = none;
  half_open_probe_in_flight = false;
}

-- `now - opened_at >= recovery_timeout`
elapsed : ℕ → Breaker → ℕ → Breaker × Admission
elapsed now b opened_at =
    if leb (opened_at + b.recovery_timeout) now
    then (record b { state = half_open; half_open_probe_in_flight = true }, admitted)
    else (b, refused_open)

before_call_in : CircuitState → ℕ → Breaker → Breaker × Admission
unfolding elapsed
before_call_in opened now b = elim b.opened_at [
  | none ↦ (b, assertion_failed)
  | some opened_at ↦ elapsed now b opened_at
]
before_call_in half_open now b =
    if b.half_open_probe_in_flight
    then (b, refused_probing)
    else (record b { half_open_probe_in_flight = true }, admitted)
before_call_in closed now b = (b, admitted)

unfoldable pub before_call : ℕ → Breaker → Breaker × Admission
unfolding before_call_in
before_call now b = before_call_in b.state now b

unfoldable pub record_success : Breaker → Breaker
record_success b = record b {
  state = closed;
  failure_count = 0;
  opened_at = none;
  half_open_probe_in_flight = false;
}

abbrev pub is_half_open : CircuitState → Bool
is_half_open half_open = true
is_half_open _ = false

unfoldable pub record_failure : ℕ → Breaker → Breaker
record_failure now b =
    let c = record b { half_open_probe_in_flight = false; failure_count = b.failure_count + 1 } in
    if is_half_open c.state || leb c.failure_threshold c.failure_count
    then record c { state = opened; opened_at = some now }
    else c
