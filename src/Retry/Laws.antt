-- ===== src/Retry/Laws.antt =====
-- Which attempt ends `call_with_retry`, how many there are, and how long it may sleep.
use native.Mathlib.Decide.{dec_lt}
use aegis_gateway.Prelude.{
  ℕ, zero, suc, ◌+◌, ◌*◌, ◌≤◌, ◌<◌, ◌≡◌, refl, ◌⊎◌, inl, inr, Bool, true, some, [], ◌∷◌, ◌==◌,
  arith, length, sum_of, Bool-cases,
}
use aegis_gateway.Retry.{
  Exn, Attempt, returned, raised, Retried, backoff, attempts, call_with_retry,
}

backoff-le : (base_delay max_delay attempt : ℕ) → backoff base_delay max_delay attempt ≤ max_delay
unfolding backoff
backoff-le base_delay max_delay attempt = omega arith

Attempt-cases {ℓ} :
    {A : Type ℓ} (a : Attempt A) → ((x : A) × (a ≡ returned x)) ⊎ ((e : Exn) × (a ≡ raised e))
Attempt-cases (returned x) = inl (x, refl)
Attempt-cases (raised e) = inr (e, refl)

module _ {ℓ} {A : Type ℓ} (fn : ℕ → Attempt A) (is_retryable : Exn → Bool)
    (max_attempts base_delay max_delay : ℕ) where
  abbrev pub CanRetry : Attempt A → Type ℓ
  CanRetry a = (e : Exn) × (a ≡ raised e) × (is_retryable e ≡ true)

  -- The run from attempt `start` ended as it should.
  pub record EndsRight (start : ℕ) (r : Retried A) : Type ℓ where
    pub from_start : start ≤ r.tries
    pub within : r.tries ≤ max_attempts
    pub last : r.result ≡ fn r.tries
    pub earlier : (i : ℕ) → start ≤ i → i < r.tries → CanRetry (fn i)
    pub stopped : r.tries < max_attempts → ¬ CanRetry (fn r.tries)
    pub sleeps : length r.delays + start ≡ r.tries
    pub bounded : sum_of (λ d. d) r.delays ≤ length r.delays * max_delay

  -- The loop stops at `attempt`, for one of its three reasons.
  here :
      (attempt : ℕ)
      → attempt ≤ max_attempts
      → (attempt < max_attempts → ¬ CanRetry (fn attempt))
      → EndsRight attempt (record { result = fn attempt; tries = attempt; delays = [] })
  here attempt le stop = record {
    from_start = omega arith;
    within = le;
    last = refl;
    earlier = λ i from below. absurd (omega arith);
    stopped = stop;
    sleeps = omega arith;
    bounded = omega arith;
  }

  -- The loop goes on after a failure that may be retried.
  later :
      (attempt : ℕ) (r : Retried A)
      → CanRetry (fn attempt)
      → EndsRight (attempt + 1) r
      → EndsRight attempt (record r { delays = backoff base_delay max_delay attempt ∷ r.delays })
  later attempt r can h = record {
    from_start = omega arith;
    within = h.within;
    last = h.last;
    earlier = λ i from below. elim (dec_lt attempt i) [
      | yes above ↦ h.earlier i (omega arith) below
      | no at ↦ let same : attempt ≡ i = omega arith in rw same at can
    ];
    stopped = h.stopped;
    sleeps = omega arith;
    bounded = omega (arith, backoff-le base_delay max_delay attempt);
  }

  attempts-EndsRight :
      (left attempt : ℕ)
      → left + attempt ≡ max_attempts + 1
      → 0 < left
      → (r : Retried A) × (attempts fn is_retryable max_attempts base_delay max_delay left attempt
          ≡ some r)
        × EndsRight attempt r
  unfolding attempts
  attempts-EndsRight zero attempt e h = absurd (omega arith)
  attempts-EndsRight (suc left) attempt e h = elim (Attempt-cases (fn attempt)) [
    | inl (x, q) ↦ (
      record { result = fn attempt; tries = attempt; delays = [] },
      ground arith,
      here attempt (omega arith) (λ _ (e', q', _). cc),
    )
    | inr (x, q) ↦ elim (Bool-cases (is_retryable x)) [
      | inl can ↦ elim (Bool-cases (attempt == max_attempts)) [
        | inl last ↦ (
          record { result = fn attempt; tries = attempt; delays = [] },
          ground arith,
          here attempt (omega arith) (λ below _. ground arith),
        )
        | inr more ↦
            let (r, run, right) =
              attempts-EndsRight left (attempt + 1) (omega arith) (ground arith) in
            (
              record r { delays = backoff base_delay max_delay attempt ∷ r.delays },
              ground arith,
              later attempt r (x, q, can) right,
            )
      ]
      | inr cannot ↦ (
        record { result = fn attempt; tries = attempt; delays = [] },
        ground arith,
        here attempt (omega arith) (λ _ (e', q', can). ground arith),
      )
    ]
  ]

  -- With at least one attempt allowed the loop always returns or raises, never reaching the `assert`
  -- below it. It ends with the result of its last attempt, which is the first that returned or failed
  -- for good, or else attempt `max_attempts`; it made one sleep before each later attempt, and
  -- the bounds of the sleeps add up to at most `max_delay` for each of them.
  pub call_with_retry_lem :
      0 < max_attempts
      → (r : Retried A) × (call_with_retry fn is_retryable max_attempts base_delay max_delay
          ≡ some r)
        × EndsRight 1 r
  unfolding call_with_retry
  call_with_retry_lem h = attempts-EndsRight max_attempts 1 refl h
