-- ===== src/RateLimit/Enforce.antt =====
-- `RateLimitExceeded` and `enforce_request_limits`: the three checks in their order, on the Redis keys
-- of one tenant.
pub mod Laws
use aegis_gateway.Prelude.{
  ℕ, ◌*◌, String, Bool, true, false, Option, none, some, ltb, ◌==◌, if◌then◌else◌,
}
use aegis_gateway.Context.{TenantContext}
use aegis_gateway.Pricing.{estimate_prompt_cost_usd}
use aegis_gateway.RateLimit.Bucket.{Bucket, LimitResult, token, check_token_bucket}
use aegis_gateway.RateLimit.Budget.{check_and_reserve_budget}

-- The codes of `RateLimitExceeded`.
pub data Exceeded : Type 0 where
  rate_limit_exceeded token_limit_exceeded budget_exceeded : Exceeded

abbrev pub code : Exceeded → String
code rate_limit_exceeded = "rate_limit_exceeded"
code token_limit_exceeded = "token_limit_exceeded"
code budget_exceeded = "budget_exceeded"

-- `retry_after_seconds`
abbrev pub retry_after_seconds : Exceeded → Option ℕ
retry_after_seconds rate_limit_exceeded = some 1
retry_after_seconds token_limit_exceeded = some 1
retry_after_seconds budget_exceeded = none

-- A tenant's buckets, and its budget key of each month.
pub record Limits : Type 0 where
  pub rpm : Option Bucket
  pub tpm : Option Bucket
  pub budget : ℕ → Option ℕ

abbrev pub set_month : ℕ → Option ℕ → (ℕ → Option ℕ) → ℕ → Option ℕ
set_month month key budget m = if m == month then key else budget m

module _ (now month : ℕ) (tenant : TenantContext) (provider_name model : String)
    (prompt_tokens : ℕ) where
  abbrev pub estimated_cost : ℕ
  estimated_cost = estimate_prompt_cost_usd model prompt_tokens provider_name

  check_budget : Limits → Limits × Option Exceeded
  check_budget k =
      let (key, budget) =
        check_and_reserve_budget estimated_cost tenant.monthly_budget_usd (k.budget month) in
      let k' = record k { budget = set_month month key k.budget } in
      if budget.allowed then (k', none) else (k', some budget_exceeded)

  check_tpm : Limits → Limits × Option Exceeded
  unfolding check_budget
  check_tpm k =
      let (key, tpm) =
        check_token_bucket now (tenant.rate_limit_tpm * token) tenant.rate_limit_tpm
          (prompt_tokens * token) k.tpm in
      let k' = record k { tpm = some key } in
      if tpm.allowed
      then (if ltb 0 estimated_cost then check_budget k' else (k', none))
      else (k', some token_limit_exceeded)

  unfoldable pub enforce_request_limits : Limits → Limits × Option Exceeded
  unfolding check_tpm
  enforce_request_limits k =
      let (key, rpm) =
        check_token_bucket now (tenant.rate_limit_rpm * token) tenant.rate_limit_rpm (1 * token)
          k.rpm in
      let k' = record k { rpm = some key } in
      if rpm.allowed then check_tpm k' else (k', some rate_limit_exceeded)
