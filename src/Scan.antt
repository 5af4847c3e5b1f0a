-- ===== src/Scan.antt =====
-- `budget_threshold_scan` of src/aegis_gateway/workers/tasks.py: month-to-date spend against each active
-- tenant's budget, with an audit event at the first crossing of 80% and of 100%. Thresholds are in
-- thousandths, and the quotient is not rounded. A marker's lifetime, 40 days, is longer than its
-- month, and is not modelled.
pub mod Laws
pub mod Once
pub mod Tests
use aegis_gateway.Prelude.{
  ℕ, ◌+◌, ◌*◌, String, Bool, true, false, ◌&&◌, Option, none, some, List, [], ◌∷◌, ◌==◌, ◌≟◌, ltb,
  leb, if◌then◌else◌,
}
use aegis_gateway.Database.{
  UsageRecord, Db, RlsContext, tenant_isolation, threshold, set_rls_context, write_audit_event,
}

-- A row of usage_records with its time.
pub record Stored : Type 0 where
  pub created_at : ℕ
  pub usage : UsageRecord

pub record TenantRow : Type 0 where
  pub id : String
  pub is_active : Bool
  pub monthly_budget_usd : ℕ

-- The session, and the markers of this month that are set, by tenant and threshold.
pub record State : Type 0 where
  pub db : Db
  pub marked : String → ℕ → Bool

unfoldable pub mark : String → ℕ → (String → ℕ → Bool) → String → ℕ → Bool
mark id reached marked i t = if id ≟ i && reached == t then true else marked i t

-- `coalesce(sum(cost_usd), 0)` over the rows that the policy shows.
unfoldable pub spend : RlsContext → ℕ → String → List Stored → ℕ
spend context month_start id [] = 0
spend context month_start id (row ∷ rows) =
    let rest = spend context month_start id rows in
    if (row.usage.tenant_id ≟ id && leb month_start row.created_at)
      && tenant_isolation context (some row.usage.tenant_id)
    then row.usage.cost_usd + rest
    else rest

-- One round of the inner loop.
unfoldable pub check_threshold : TenantRow → ℕ → ℕ → State → State
check_threshold tenant spent t s =
    if ltb (spent * 1000) (t * tenant.monthly_budget_usd)
    then s
    else if s.marked tenant.id t
    then s
    else record {
      db =
          write_audit_event
            (record {
              tenant_id = some tenant.id;
              event_type = "budget.threshold_reached";
              correlation_id = none;
              detail = threshold t spent tenant.monthly_budget_usd;
            })
            s.db;
      marked = mark tenant.id t s.marked;
    }

module _ (month_start : ℕ) (rows : List Stored) where
  -- One round of the outer loop.
  unfoldable pub check_tenant : TenantRow → State → State
  check_tenant tenant s =
      let spent = spend s.db.context month_start tenant.id rows in
      if leb tenant.monthly_budget_usd 0
      then s
      else check_threshold tenant spent 1000 (check_threshold tenant spent 800 s)

  unfoldable pub check_tenants : List TenantRow → State → State
  check_tenants [] s = s
  check_tenants (tenant ∷ tenants) s = check_tenants tenants (check_tenant tenant s)

  unfoldable pub active : List TenantRow → List TenantRow
  active [] = []
  active (tenant ∷ tenants) =
      let rest = active tenants in if tenant.is_active then tenant ∷ rest else rest

  unfoldable pub budget_threshold_scan : List TenantRow → State → State
  budget_threshold_scan tenants s =
      check_tenants (active tenants) (record s { db = set_rls_context none true s.db })
