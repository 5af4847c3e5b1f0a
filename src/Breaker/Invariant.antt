-- ===== src/Breaker/Invariant.antt =====
-- What holds of a circuit breaker between two of its methods, for any interleaving of its callers.
use aegis_gateway.Prelude.{ℕ, ◌<◌, ◌≡◌, ◌≢◌, ◌⊎◌, true, none, List, [], ◌∷◌, arith}
use aegis_gateway.Breaker.{
  closed, opened, half_open, Breaker, refused_probing, assertion_failed, new, before_call,
  record_success, record_failure,
}

-- One call of a method, with the clock's value for the methods that read it.
pub data Op : Type 0 where
  before failure : ℕ → Op
  success : Op

abbrev pub apply : Op → Breaker → Breaker
apply (before now) b = (before_call now b).0
apply (failure now) b = record_failure now b
apply success b = record_success b

pub run : List Op → Breaker → Breaker
run [] b = b
run (op ∷ ops) b = run ops (apply op b)

pub record IsValid (b : Breaker) : Type 0 where
  pub open_stamped : b.state ≡ opened → b.opened_at ≢ none
  pub half_open_probing : b.state ≡ half_open → b.half_open_probe_in_flight ≡ true
  pub others_quiet : b.half_open_probe_in_flight ≡ true → b.state ≡ half_open
  pub closed_below :
      b.state ≡ closed → (b.failure_count ≡ 0) ⊎ (b.failure_count < b.failure_threshold)

new-IsValid : (threshold timeout : ℕ) → IsValid (new threshold timeout)
unfolding new
new-IsValid threshold timeout = ground arith

pub apply-IsValid : (op : Op) (b : Breaker) → IsValid b → IsValid (apply op b)
unfolding before_call record_success record_failure
apply-IsValid (before now) b h = ground arith
apply-IsValid (failure now) b h = ground arith
apply-IsValid success b h = ground arith

run_from-IsValid : (ops : List Op) (b : Breaker) → IsValid b → IsValid (run ops b)
unfolding run
run_from-IsValid [] b h = h
run_from-IsValid (op ∷ ops) b h = run_from-IsValid ops (apply op b) (apply-IsValid op b h)

-- Whatever methods are called, in whatever order, on a new breaker: an open circuit has its time
-- stamp, the probe flag is set exactly while the circuit is half-open, and a closed circuit has
-- counted no failure or fewer than the threshold.
pub run-IsValid :
    (ops : List Op) (threshold timeout : ℕ) → IsValid (run ops (new threshold timeout))
run-IsValid ops threshold timeout = run_from-IsValid ops (new threshold timeout) (new-IsValid _ _)

-- So the `assert` of `before_call` never fails, and its branch that starts a probe in a circuit that
-- is already half-open is never taken: a half-open circuit refuses every call.
pub before_call_of_IsValid :
    (now : ℕ) (b : Breaker)
    → IsValid b
    → ((before_call now b).1 ≢ assertion_failed)
      × (b.state ≡ half_open → before_call now b ≡ (b, refused_probing))
unfolding before_call
before_call_of_IsValid now b h = (ground arith, ground arith)
