-- ===== src/Retry.antt =====
-- src/aegis_gateway/providers/retry.py: exponential backoff around one awaited call.
-- The call's results are a function of the attempt's number, from 1. The jittered sleep is kept as
-- its upper bound, `delay`: nothing in the code depends on how long it slept.
pub mod Laws
use mathlib.Core.Option
use aegis_gateway.Prelude.{
  ℕ, zero, suc, ◌+◌, ◌-◌, ◌*◌, ◌^◌, min, String, Bool, true, false, ◌||◌, not, Option, none, some,
  List, [], ◌∷◌, ◌==◌, if◌then◌else◌,
}

-- What the awaited call may raise: `httpx.TimeoutException`, `httpx.ConnectError`,
-- `UpstreamStatusError`, and anything else (a `ReadError`, a JSON error, a cancellation).
pub data Exn : Type 0 where
  timeout connect other : String → Exn
  status : ℕ → String → Exn

pub data Attempt {ℓ} (A : Type ℓ) : Type ℓ where
  returned : A → Attempt A
  raised : Exn → Attempt A

-- How the loop ended, the attempts that it made, and the bounds of its sleeps, in order.
pub record Retried {ℓ} (A : Type ℓ) : Type ℓ where
  pub result : Attempt A
  pub tries : ℕ
  pub delays : List ℕ

-- `RETRYABLE_STATUS_CODES`
abbrev pub retryable_status : ℕ → Bool
retryable_status code =
    code == 429 || (code == 500 || (code == 502 || (code == 503 || code == 504)))

-- `min(max_delay, base_delay * 2 ** (attempt - 1))`
unfoldable pub backoff : ℕ → ℕ → ℕ → ℕ
backoff base_delay max_delay attempt = min max_delay (base_delay * 2 ^ (attempt - 1))

module _ {ℓ} {A : Type ℓ} (fn : ℕ → Attempt A) (is_retryable : Exn → Bool)
    (max_attempts base_delay max_delay : ℕ) where
  finish : Attempt A → ℕ → Option (Retried A)
  finish result attempt = some (record { result = result; tries = attempt; delays = [] })

  slept : ℕ → Retried A → Retried A
  slept attempt r = record r { delays = backoff base_delay max_delay attempt ∷ r.delays }

  -- The rounds of the `for` that are left; `none` is the failed `assert` below the loop.
  pub attempts : ℕ → ℕ → Option (Retried A)
  unfolding finish slept
  attempts zero attempt = none
  attempts (suc left) attempt =
      let rest = attempts left (attempt + 1) in
      elim (fn attempt) [
        | returned a ↦ finish (returned a) attempt
        | raised e ↦
            if not (is_retryable e) || attempt == max_attempts
            then finish (raised e) attempt
            else Option.map (slept attempt) rest
      ]

  unfoldable pub call_with_retry : Option (Retried A)
  unfolding attempts
  call_with_retry = attempts max_attempts 1
