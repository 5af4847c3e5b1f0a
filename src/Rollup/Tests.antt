-- ===== src/Rollup/Tests.antt =====
-- Roll-ups on concrete data.
use aegis_gateway.Prelude.{ℕ, ◌+◌, ◌*◌, arith, refl, String, true, none, List, [], ◌∷◌, ◌≡◌}
use aegis_gateway.Database.{UsageRecord}
use aegis_gateway.Scan.{Stored}
use aegis_gateway.Rollup.{rollup_period}
use aegis_gateway.Rollup.Totals.{Column, value, total}
use aegis_gateway.Rollup.Jobs.{day, daily_usage_rollup}
use aegis_gateway.Rollup.Jobs.Laws.{daily_instant, hourly_runs, sum_hours, jobs_agree}
use aegis_gateway.Rollup.Laws.{find_rollup, rollup_period-idempotent}

abbrev used : String → ℕ → UsageRecord
used id cost = record {
  tenant_id = id;
  api_key_id = "k";
  provider = "openai";
  model = "gpt-4";
  prompt_tokens = 3;
  completion_tokens = 4;
  total_tokens = 7;
  cost_usd = cost;
  cache_hit = true;
  correlation_id = none;
}

abbrev stored : List Stored
stored =
    record { created_at = 10; usage = used "t1" 5 }
    ∷ record { created_at = 20; usage = used "t2" 6 }
    ∷ record { created_at = 4000; usage = used "t1" 7 }
    ∷ []

rollup_period-idempotent_example :
    let once = (rollup_period "hourly" 0 3600 stored []).0 in
    find_rollup "t1" "hourly" 0 (rollup_period "hourly" 0 3600 stored once).0
    ≡ find_rollup "t1" "hourly" 0 once
rollup_period-idempotent_example =
    rollup_period-idempotent "t1" "hourly" 0 "hourly" 0 3600 stored []

-- The same records, on the day after the epoch.
abbrev next_day : List Stored
next_day =
    record { created_at = day + 10; usage = used "t1" 5 }
    ∷ record { created_at = day + 20; usage = used "t2" 6 }
    ∷ record { created_at = day + 40000000000; usage = used "t1" 7 }
    ∷ []

no_rollup : (tenant_id kind : String) (start : ℕ) → find_rollup tenant_id kind start [] ≡ none
unfolding find_rollup
no_rollup tenant_id kind start = refl

jobs_agree_example :
    let hourly = hourly_runs 1 (λ k. 7) next_day 24 [] in
    let final = (daily_usage_rollup (daily_instant (1 * day) 3) next_day hourly).0 in
    (value Column.cost_usd (find_rollup "t1" "daily" (1 * day) final)
      ≡ sum_hours 1 (λ k. 7) next_day "t1" Column.cost_usd 24 final)
    × (value Column.cost_usd (find_rollup "t1" "daily" (1 * day) final)
        ≡ total "t1" (1 * day) (1 * day + day) Column.cost_usd next_day)
jobs_agree_example =
    jobs_agree 1 3 (λ k. 7) next_day "t1" Column.cost_usd [] (λ k. omega arith) (omega arith)
      (λ k. no_rollup "t1" "hourly" _) (no_rollup "t1" "daily" _)
