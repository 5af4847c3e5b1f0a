-- ===== src/Upstream/Laws.antt =====
-- What one guarded call does to the breaker, to the gauge and to its caller.
use aegis_gateway.Prelude.{ℕ, ◌<◌, ◌≡◌, refl, ◌≢◌, ◌⊎◌, inl, inr, some, String, arith}
use aegis_gateway.ProviderError.{ProviderError}
use aegis_gateway.Breaker.{Breaker, admitted, before_call, record_success, record_failure}
use aegis_gateway.Breaker.Invariant.{IsValid, before_call_of_IsValid}
use aegis_gateway.Retry.{
  timeout, connect, other, status, Attempt, returned, raised, Retried, call_with_retry,
}
use aegis_gateway.Retry.Laws.{call_with_retry_lem}
use aegis_gateway.Upstream.{
  is_retryable, value, error, escaped, assertion, Settled, settle, settle_retried, run_with_breaker,
}

settle_cases {ℓ} :
    {A : Type ℓ} (later : ℕ) (result : Attempt A) (b : Breaker)
    → ((m : String) × ((settle later result b).call ≡ escaped m))
      ⊎ (((settle later result b).breaker ≡ record_success b)
          × ((a : A) × ((settle later result b).call ≡ value a)))
      ⊎ (((settle later result b).breaker ≡ record_failure later b)
          × ((e : ProviderError) × ((settle later result b).call ≡ error e)))
unfolding settle
settle_cases later (returned a) b = inr (inl (refl, (a, refl)))
settle_cases later (raised (timeout m)) b = inr (inr (refl, (_, refl)))
settle_cases later (raised (connect m)) b = inr (inr (refl, (_, refl)))
settle_cases later (raised (status code body)) b = inr (inr (refl, (_, refl)))
settle_cases later (raised (other m)) b = inl (m, refl)

module _ {ℓ} {A : Type ℓ} (messages : String × String) (now later : ℕ) (fn : ℕ → Attempt A)
    (max_attempts base_delay max_delay : ℕ) (b : Breaker) where
  abbrev settled : Settled A
  settled = run_with_breaker messages now later fn max_attempts base_delay max_delay b

  -- With a valid breaker and at least one attempt allowed, no `assert` fails: neither that of
  -- `before_call` nor that below the retry loop.
  pub run_with_breaker-ne-assertion : IsValid b → 0 < max_attempts → settled.call ≢ assertion
  unfolding run_with_breaker settle_retried settle
  run_with_breaker-ne-assertion h pos =
      let (r, run, right) =
        call_with_retry_lem fn is_retryable max_attempts base_delay max_delay pos in
      ground (arith, run, (before_call_of_IsValid now b h).0)

  -- A guarded call never sets the gauge to 1, the value of half-open.
  pub gauge_never_half_open : settled.gauge ≢ some 1
  unfolding run_with_breaker settle_retried settle record_success record_failure
  gauge_never_half_open g = ground arith

  admitted-settle :
      (r : Retried A)
      → (before_call now b).1 ≡ admitted
      → call_with_retry fn is_retryable max_attempts base_delay max_delay ≡ some r
      → settled ≡ settle later r.result (before_call now b).0
  unfolding run_with_breaker settle_retried
  admitted-settle r adm run = ground arith

  -- A call that is let through, with at least one attempt allowed, ends in one of three ways: an
  -- exception escapes; or the breaker records a success and the caller gets a value; or it records a
  -- failure and the caller gets a `ProviderError`.
  pub settles :
      0 < max_attempts
      → (before_call now b).1 ≡ admitted
      → ((m : String) × (settled.call ≡ escaped m))
        ⊎ ((settled.breaker ≡ record_success (before_call now b).0)
            × ((a : A) × (settled.call ≡ value a)))
        ⊎ ((settled.breaker ≡ record_failure later (before_call now b).0)
            × ((e : ProviderError) × (settled.call ≡ error e)))
  settles pos adm =
      let (r, run, right) =
        call_with_retry_lem fn is_retryable max_attempts base_delay max_delay pos in
      rw (admitted-settle r adm run) (settle_cases later r.result (before_call now b).0)
