-- ===== src/RateLimit/Enforce/Laws.antt =====
-- What `enforce_request_limits` has spent when it admits a request, and when it refuses one.
use aegis_gateway.Prelude.{
  ℕ, ◌+◌, ◌*◌, ◌≤◌, ◌<◌, ◌≡◌, ◌⊎◌, String, true, false, Option, none, some, arith, Option-cases,
  inl, inr,
}
use aegis_gateway.Context.{TenantContext}
use aegis_gateway.RateLimit.Bucket.{Bucket, LimitResult, token, check_token_bucket}
use aegis_gateway.RateLimit.Budget.{current, check_and_reserve_budget}
use aegis_gateway.RateLimit.Enforce.{
  Exceeded, rate_limit_exceeded, token_limit_exceeded, budget_exceeded, Limits, estimated_cost,
  check_budget, check_tpm, enforce_request_limits,
}

module _ (now month : ℕ) (tenant : TenantContext) (provider_name model : String) (prompt_tokens : ℕ)
    (k : Limits) where
  abbrev cost : ℕ
  cost = estimated_cost now month tenant provider_name model prompt_tokens

  abbrev outcome : Limits × Option Exceeded
  outcome = enforce_request_limits now month tenant provider_name model prompt_tokens k

  abbrev request : Bucket × LimitResult
  request =
      check_token_bucket now (tenant.rate_limit_rpm * token) tenant.rate_limit_rpm (1 * token) k.rpm

  abbrev tokens : Bucket × LimitResult
  tokens =
      check_token_bucket now (tenant.rate_limit_tpm * token) tenant.rate_limit_tpm
        (prompt_tokens * token) k.tpm

  -- Both buckets have let the request through, and its month's budget key has grown by the estimate.
  abbrev pub Paid : Type 0
  Paid =
      (request.1.allowed ≡ true)
      × (tokens.1.allowed ≡ true)
      × (current (outcome.0.budget month) ≡ current (k.budget month) + cost)
      × ((cost ≡ 0) ⊎ (current (outcome.0.budget month) ≤ tenant.monthly_budget_usd))
      × ((m : ℕ) → (m ≡ month) ⊎ (outcome.0.budget m ≡ k.budget m))

  admitted_paid : outcome.1 ≡ none → Paid
  unfolding enforce_request_limits check_tpm check_budget check_and_reserve_budget
  admitted_paid h = (ground arith, ground arith, ground arith, ground arith, λ m. ground arith)

  -- Why a request is refused with the given error.
  abbrev pub Reason : Exceeded → Type 0
  Reason rate_limit_exceeded = (request.1.allowed ≡ false) × (outcome.0.tpm ≡ k.tpm)
  Reason token_limit_exceeded = (request.1.allowed ≡ true) × (tokens.1.allowed ≡ false)
  Reason budget_exceeded =
      (request.1.allowed ≡ true)
      × (tokens.1.allowed ≡ true)
      × (0 < cost)
      × (tenant.monthly_budget_usd < current (k.budget month) + cost)

  refused_in_order :
      (e : Exceeded) → outcome.1 ≡ some e → ((m : ℕ) → outcome.0.budget m ≡ k.budget m) × Reason e
  unfolding enforce_request_limits check_tpm check_budget check_and_reserve_budget
  refused_in_order rate_limit_exceeded h = (λ m. ground arith, (ground arith, ground arith))
  refused_in_order token_limit_exceeded h = (λ m. ground arith, (ground arith, ground arith))
  refused_in_order budget_exceeded h =
      (λ m. ground arith, (ground arith, ground arith, ground arith, ground arith))

  -- What holds after each verdict.
  abbrev pub Verdict : Option Exceeded → Type 0
  Verdict none = Paid
  Verdict (some e) = ((m : ℕ) → outcome.0.budget m ≡ k.budget m) × Reason e

  -- A request that is admitted passed both buckets, its month's budget key has grown by exactly the
  -- estimate, and is within the tenant's budget if the estimate is positive, and other months are left
  -- alone. A refusal names the first check that failed: the token bucket has not run behind a
  -- refusing request bucket; it is named only if the request bucket has let the request through, and the
  -- budget only if both buckets have, the estimate is positive and it goes beyond the budget. No
  -- refused request changes a budget key.
  pub enforce_request_limits_lem : Verdict outcome.1
  enforce_request_limits_lem = elim (Option-cases outcome.1) [
    | inl allowed ↦ rw allowed (admitted_paid allowed)
    | inr (e, exceeded) ↦ rw exceeded (refused_in_order e exceeded)
  ]
