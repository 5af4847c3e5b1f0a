-- ===== src/Rollup.antt =====
-- `_rollup_period` of src/aegis_gateway/workers/tasks.py: the usage records of a period, aggregated by tenant
-- and upserted into usage_rollups. It runs under the bypass, so that the policy shows and
-- admits every row. The columns `id` and `created_at`, which the upsert leaves alone, are left out.
pub mod Laws
pub mod Totals
pub mod Rows
pub mod Jobs
pub mod Tests
use aegis_gateway.Prelude.{
  ℕ, ◌+◌, String, Bool, true, false, ◌&&◌, Option, none, some, List, [], ◌∷◌, length, ◌==◌, ◌≟◌,
  ltb, leb, if◌then◌else◌,
}
use aegis_gateway.Database.{UsageRecord}
use aegis_gateway.Scan.{Stored}

pub record UsageRollup : Type 0 where
  pub tenant_id : String
  pub period_type : String
  pub period_start : ℕ
  pub request_count : ℕ
  pub cache_hit_count : ℕ
  pub prompt_tokens : ℕ
  pub completion_tokens : ℕ
  pub total_tokens : ℕ
  pub cost_usd : ℕ

-- `cast(cache_hit, Integer)`
abbrev pub hit_count : Bool → ℕ
hit_count cache_hit = if cache_hit then 1 else 0

module _ (period_type : String) (period_start period_end : ℕ) where
  -- The aggregates of a group with one record, and with one record more.
  unfoldable pub single : UsageRecord → UsageRollup
  single u = record {
    tenant_id = u.tenant_id;
    period_type = period_type;
    period_start = period_start;
    request_count = 1;
    cache_hit_count = hit_count u.cache_hit;
    prompt_tokens = u.prompt_tokens;
    completion_tokens = u.completion_tokens;
    total_tokens = u.total_tokens;
    cost_usd = u.cost_usd;
  }

  unfoldable pub extended : UsageRecord → UsageRollup → UsageRollup
  extended u g = record g {
    request_count = 1 + g.request_count;
    cache_hit_count = hit_count u.cache_hit + g.cache_hit_count;
    prompt_tokens = u.prompt_tokens + g.prompt_tokens;
    completion_tokens = u.completion_tokens + g.completion_tokens;
    total_tokens = u.total_tokens + g.total_tokens;
    cost_usd = u.cost_usd + g.cost_usd;
  }

  unfoldable pub add_record : UsageRecord → List UsageRollup → List UsageRollup
  add_record u [] = single u ∷ []
  add_record u (g ∷ groups) =
      let rest = add_record u groups in
      if g.tenant_id ≟ u.tenant_id then extended u g ∷ groups else g ∷ rest

  -- `where(created_at >= period_start, created_at < period_end)`
  unfoldable pub in_period : List Stored → List UsageRecord
  in_period [] = []
  in_period (row ∷ rows) =
      let rest = in_period rows in
      if leb period_start row.created_at && ltb row.created_at period_end
      then row.usage ∷ rest
      else rest

  -- `group_by(tenant_id)`
  unfoldable pub grouped : List UsageRecord → List UsageRollup
  grouped [] = []
  grouped (u ∷ records) = add_record u (grouped records)

-- The unique constraint `uq_usage_rollups_period`.
abbrev pub has_key : String → String → ℕ → UsageRollup → Bool
has_key tenant_id period_type period_start r =
    r.tenant_id ≟ tenant_id && (r.period_type ≟ period_type && r.period_start == period_start)

-- `insert … on conflict do update`
unfoldable pub upsert : UsageRollup → List UsageRollup → List UsageRollup
upsert r [] = r ∷ []
upsert r (q ∷ table) =
    let rest = upsert r table in
    if has_key r.tenant_id r.period_type r.period_start q then r ∷ table else q ∷ rest

unfoldable pub upsert_all : List UsageRollup → List UsageRollup → List UsageRollup
upsert_all [] table = table
upsert_all (r ∷ rows) table = upsert_all rows (upsert r table)

-- The table afterwards, and the number of rows that is returned.
unfoldable pub rollup_period :
    String → ℕ → ℕ → List Stored → List UsageRollup → List UsageRollup × ℕ
rollup_period period_type period_start period_end records table =
    let rows =
      grouped period_type period_start period_end
        (in_period period_type period_start period_end records) in
    (upsert_all rows table, length rows)
