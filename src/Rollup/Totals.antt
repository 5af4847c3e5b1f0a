-- ===== src/Rollup/Totals.antt =====
-- Sums over a tenant's records of a period.
use aegis_gateway.Prelude.{
  ℕ, ◌+◌, ◌≡◌, refl, String, ◌&&◌, Option, none, some, List, [], ◌∷◌, sum_of, leb, ltb,
  if◌then◌else◌, arith, ◌≟◌, ◌≤◌,
}
use aegis_gateway.Database.{UsageRecord}
use aegis_gateway.Scan.{Stored}
use aegis_gateway.Rollup.{UsageRollup, hit_count}

-- A column that is aggregated, and what a record adds to it.
pub data Column : Type 0 where
  request_count cache_hit_count prompt_tokens completion_tokens total_tokens cost_usd : Column

abbrev pub aggregate : Column → UsageRollup → ℕ
aggregate request_count r = r.request_count
aggregate cache_hit_count r = r.cache_hit_count
aggregate prompt_tokens r = r.prompt_tokens
aggregate completion_tokens r = r.completion_tokens
aggregate total_tokens r = r.total_tokens
aggregate cost_usd r = r.cost_usd

abbrev pub contribution : Column → UsageRecord → ℕ
contribution request_count u = 1
contribution cache_hit_count u = hit_count u.cache_hit
contribution prompt_tokens u = u.prompt_tokens
contribution completion_tokens u = u.completion_tokens
contribution total_tokens u = u.total_tokens
contribution cost_usd u = u.cost_usd

-- What a tenant's record of a period adds.
abbrev pub share : String → ℕ → ℕ → Column → Stored → ℕ
share tenant_id start end_ c row =
    if (row.usage.tenant_id ≟ tenant_id) && (leb start row.created_at && ltb row.created_at end_)
    then contribution c row.usage
    else 0

-- A tenant's total over the records of a period.
unfoldable pub total : String → ℕ → ℕ → Column → List Stored → ℕ
total tenant_id start end_ c = sum_of (share tenant_id start end_ c)

-- A column of a row; 0 where there is no row.
unfoldable pub value : Column → Option UsageRollup → ℕ
value c none = 0
value c (some r) = aggregate c r

pub total-empty :
    (tenant_id : String) (start end_ : ℕ) (c : Column) (records : List Stored)
    → end_ ≤ start
    → total tenant_id start end_ c records ≡ 0
unfolding total
total-empty tenant_id start end_ c [] h = refl
total-empty tenant_id start end_ c (row ∷ records) h =
    ground (arith, total-empty tenant_id start end_ c records h)

-- The totals of two periods that follow each other add up.
pub total-split :
    (tenant_id : String) (start middle end_ : ℕ) (c : Column) (records : List Stored)
    → start ≤ middle
    → middle ≤ end_
    → total tenant_id start end_ c records
      ≡ total tenant_id start middle c records + total tenant_id middle end_ c records
unfolding total
total-split tenant_id start middle end_ c [] h k = refl
total-split tenant_id start middle end_ c (row ∷ records) h k =
    ground (arith, total-split tenant_id start middle end_ c records h k)
