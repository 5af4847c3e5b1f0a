-- ===== src/RateLimit/Tests.antt =====
-- The limits on concrete inputs. Times are in microseconds.
use aegis_gateway.Prelude.{
  ℕ, ◌+◌, ◌*◌, ◌≤◌, ◌≡◌, refl, true, false, none, some, [], ◌∷◌, arith, sum_of,
}
use aegis_gateway.Context.{TenantContext, block}
use aegis_gateway.RateLimit.Bucket.{check_token_bucket}
use aegis_gateway.RateLimit.Bucket.Laws.{grants, rate_bound}
use aegis_gateway.RateLimit.Budget.{
  current, check_and_reserve_budget, reserve_all, reserve_all-within,
}
use aegis_gateway.RateLimit.Slots.{pos, Counter, incr, incr_key, found, exceeds}
use aegis_gateway.RateLimit.Slots.Races.{start, later, enter, IsCounted, Reach-IsCounted}
use aegis_gateway.RateLimit.Enforce.{Limits, enforce_request_limits, budget_exceeded}
use aegis_gateway.Pricing.{estimate_prompt_cost_usd, price_for}
use aegis_gateway.RateLimit.Enforce.Laws.{Reason, enforce_request_limits_lem}

rate_bound_example :
    grants 2 ((0, 60_000_000) ∷ (10, 60_000_000) ∷ (20, 60_000_000) ∷ []) none
    ≤ 2 * 60_000_000 + 20 * 2
rate_bound_example =
    rate_bound 2 0 60_000_000 ((10, 60_000_000) ∷ (20, 60_000_000) ∷ [])
      (ground arith, (ground arith, tt))

reserve_all-within_example :
    (3 + sum_of (λ n. n) (reserve_all 10 (4 ∷ 5 ∷ 3 ∷ []) (some 3)).0
      ≡ current (reserve_all 10 (4 ∷ 5 ∷ 3 ∷ []) (some 3)).1)
    × (current (reserve_all 10 (4 ∷ 5 ∷ 3 ∷ []) (some 3)).1 ≤ 10)
reserve_all-within_example = reserve_all-within 10 (4 ∷ 5 ∷ 3 ∷ []) (some 3) (ground arith)

abbrev counter : Counter
counter = record { value = pos 2; expires_at = some 500 }

entered : exceeds (incr_key 5 none).value 2 ≡ false
unfolding incr_key found incr
entered = refl

Reach-IsCounted_example :
    IsCounted 2 5 (record { key = some (incr_key 5 none); holders = 1; refused = 0 })
Reach-IsCounted_example = Reach-IsCounted (later (start 5) (enter 5 refl entered))

abbrev tenant : TenantContext
tenant = record {
  tenant_id = "t1";
  tenant_name = "Acme";
  api_key_id = "k1";
  monthly_budget_usd = 1_000_000;
  rate_limit_rpm = 60;
  rate_limit_tpm = 1_000;
  max_concurrent_requests = 2;
  pii_redaction_enabled = true;
  injection_detection_enabled = true;
  injection_detection_threshold = 800;
  injection_detection_mode = block;
  cache_enabled = true;
}

abbrev unused : Limits
unused = record { rpm = none; tpm = none; budget = λ m. none }

admitted : (enforce_request_limits 0 7 tenant "openai" "gpt-4o" 12 unused).1 ≡ none
unfolding enforce_request_limits estimate_prompt_cost_usd price_for check_token_bucket
    check_and_reserve_budget
admitted = refl

refused : (enforce_request_limits 0 7 tenant "openai" "gpt-4" 500 unused).1 ≡ some budget_exceeded
unfolding enforce_request_limits estimate_prompt_cost_usd price_for check_token_bucket
    check_and_reserve_budget
refused = refl

enforce_request_limits_lem_example :
    ((m : ℕ) → (enforce_request_limits 0 7 tenant "openai" "gpt-4" 500 unused).0.budget m ≡ none)
    × Reason 0 7 tenant "openai" "gpt-4" 500 unused budget_exceeded
unfolding enforce_request_limits estimate_prompt_cost_usd price_for check_token_bucket
    check_and_reserve_budget
enforce_request_limits_lem_example =
    enforce_request_limits_lem 0 7 tenant "openai" "gpt-4" 500 unused
