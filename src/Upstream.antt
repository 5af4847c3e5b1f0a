-- ===== src/Upstream.antt =====
-- src/aegis_gateway/providers/openai_compatible.py: one upstream call behind the circuit breaker and the
-- retry loop, and the parsing of an SSE stream. The HTTP client is not modelled: what it answers
-- is an argument.
pub mod Laws
pub mod Tests
pub mod Outage
pub mod Sse
pub mod Connect
use aegis_gateway.Prelude.{ℕ, String, Bool, true, false, Option, none, some, leb, if◌then◌else◌}
use aegis_gateway.ProviderError.{ProviderError}
use aegis_gateway.Breaker.{
  CircuitState, closed, opened, half_open, Breaker, Admission, admitted, refused_open,
  refused_probing, assertion_failed, before_call, record_success, record_failure,
}
use aegis_gateway.Retry.{
  Exn, timeout, connect, other, status, Attempt, returned, raised, Retried, retryable_status,
  call_with_retry,
}

unfoldable pub is_retryable : Exn → Bool
is_retryable (timeout message) = true
is_retryable (connect message) = true
is_retryable (status code body) = retryable_status code
is_retryable (other message) = false

-- What the HTTP client makes of one `post`: an exception, or a status with its text and its body as
-- JSON, which may be malformed.
pub data Answer {ℓ} (A : Type ℓ) : Type ℓ where
  failed : Exn → Answer A
  answered : ℕ → String → Attempt A → Answer A

unfoldable pub post_once {ℓ} : {A : Type ℓ} → Answer A → Attempt A
post_once (failed e) = raised e
post_once (answered code text json) = if leb 400 code then raised (status code text) else json

-- How a call ends for the adapter's caller: a value, a `ProviderError`, another exception, or a
-- failed `assert`.
pub data Call {ℓ} (A : Type ℓ) : Type ℓ where
  value : A → Call A
  error : ProviderError → Call A
  escaped : String → Call A
  assertion : Call A

-- `_CIRCUIT_STATE_VALUES`
unfoldable pub gauge_value : CircuitState → ℕ
gauge_value closed = 0
gauge_value half_open = 1
gauge_value opened = 2

-- The breaker, what `set_circuit_breaker_state` reports if it is called, and the end of the call.
pub record Settled {ℓ} (A : Type ℓ) : Type ℓ where
  pub breaker : Breaker
  pub gauge : Option ℕ
  pub call : Call A

module _ {ℓ} {A : Type ℓ} where
  recorded : Breaker → Call A → Settled A
  unfolding gauge_value
  recorded b call = record { breaker = b; gauge = some (gauge_value b.state); call = call }

  -- The `except` and `else` clauses of `_run_with_breaker`.
  unfoldable pub settle : ℕ → Attempt A → Breaker → Settled A
  unfolding recorded
  settle now (returned a) b = recorded (record_success b) (value a)
  settle now (raised (timeout message)) b =
      recorded (record_failure now b) (error (ProviderError.timeout message))
  settle now (raised (connect message)) b =
      recorded (record_failure now b) (error (ProviderError.connection message))
  settle now (raised (status code body)) b =
      recorded (record_failure now b) (error (ProviderError.status code body))
  settle now (raised (other message)) b = record {
    breaker = b;
    gauge = none;
    call = escaped message;
  }

  abbrev unsettled : Breaker → Call A → Settled A
  unsettled b call = record { breaker = b; gauge = none; call = call }

  settle_retried : ℕ → Option (Retried A) → Breaker → Settled A
  unfolding settle
  settle_retried now none b = unsettled b assertion
  settle_retried now (some r) b = settle now r.result b

  -- `before_call` raises before the `try`. The two messages of `CircuitOpenError` name the provider.
  unfoldable pub run_with_breaker :
      (messages : String × String) (now later : ℕ) (fn : ℕ → Attempt A)
      (max_attempts base_delay max_delay : ℕ)
      → Breaker
      → Settled A
  unfolding settle_retried is_retryable
  run_with_breaker messages now later fn max_attempts base_delay max_delay b =
      let (b', admission) = before_call now b in
      elim admission [
        | admitted ↦
            settle_retried later (call_with_retry fn is_retryable max_attempts base_delay max_delay)
              b'
        | refused_open ↦ unsettled b' (error (ProviderError.circuit_open messages.0))
        | refused_probing ↦ unsettled b' (error (ProviderError.circuit_open messages.1))
        | assertion_failed ↦ unsettled b' assertion
      ]

  -- `chat_completion`: the answer is validated after the breaker has counted it as a success.
  validated : {B : Type ℓ} → (A → Option B) → Call A → Call B
  validated model_validate (value a) = elim (model_validate a) [
    | some b ↦ value b
    | none ↦ escaped "ValidationError"
  ]
  validated model_validate (error e) = error e
  validated model_validate (escaped message) = escaped message
  validated model_validate assertion = assertion

  unfoldable pub chat_completion : {B : Type ℓ} → (A → Option B) → Settled A → Settled B
  unfolding validated
  chat_completion model_validate s = record {
    breaker = s.breaker;
    gauge = s.gauge;
    call = validated model_validate s.call;
  }
