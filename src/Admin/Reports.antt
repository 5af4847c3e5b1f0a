-- ===== src/Admin/Reports.antt =====
-- src/aegis_gateway/api/admin.py: the handlers that only read. A table is the list of its rows, in no order that
-- the code relies on; the database's ORDER BY is the argument `database`. `limit` and `offset` are
-- as FastAPI has validated them.
pub mod Ordered
pub mod Pages
use aegis_gateway.Prelude.{
  ℕ, zero, suc, String, Bool, true, false, ◌&&◌, ◌||◌, Option, none, some, List, [], ◌∷◌, ◌≟◌,
  if◌then◌else◌,
}
use aegis_gateway.Database.{
  AuditLog, UsageRecord, RlsContext, set_rls_context, tenant_isolation, same_tenant,
}
use aegis_gateway.Rollup.{UsageRollup}
use aegis_gateway.Authentication.{ApiKey, Tenant}
use aegis_gateway.Admin.{Plane, begin, close}

-- A row with its `created_at`.
pub record Stored (A : Type 0) : Type 0 where
  pub row : A
  pub created_at : ℕ

-- The tables that authentication does not read.
pub record Reports : Type 0 where
  pub usage_records : List (Stored UsageRecord)
  pub usage_rollups : List UsageRollup
  pub audit_log : List (Stored AuditLog)

module _ {A : Type 0} where
  -- `where(…)`
  abbrev pub select : (A → Bool) → List A → List A
  select test [] = []
  select test (a ∷ rows) = let rest = select test rows in if test a then a ∷ rest else rest

  abbrev pub take : ℕ → List A → List A
  take zero rows = []
  take (suc n) [] = []
  take (suc n) (a ∷ rows) = a ∷ take n rows

  abbrev pub drop : ℕ → List A → List A
  drop zero rows = rows
  drop (suc n) [] = []
  drop (suc n) (a ∷ rows) = drop n rows

-- `if event_type:` an empty one filters nothing.
abbrev pub has_type : Option String → AuditLog → Bool
has_type none row = true
has_type (some event_type) row = if event_type ≟ "" then true else row.event_type ≟ event_type

-- `if tenant_id is not None:`
abbrev pub is_about : Option String → AuditLog → Bool
is_about none row = true
is_about (some tenant_id) row = same_tenant row.tenant_id (some tenant_id)

-- `ORDER BY … DESC`, over a number.
pub record OrderBy : Type 1 where
  pub order_by_desc : {A : Type 0} → (A → ℕ) → List A → List A

module _ (database : OrderBy) where
  unfoldable pub list_tenants : ℕ → ℕ → Plane → Plane × List Tenant
  list_tenants limit offset p = (
    close p,
    take limit
        (drop offset (database.order_by_desc (λ (t : Tenant). t.created_at) (begin p).tenants)),
  )

  unfoldable pub list_api_keys : String → Plane → Plane × List ApiKey
  list_api_keys tenant_id p =
      let q = begin p in
      (
        close p,
        database.order_by_desc (λ (k : ApiKey). k.created_at)
            (select
              (λ (k : ApiKey).
                tenant_isolation q.db.context (some k.tenant_id) && (k.tenant_id ≟ tenant_id))
              q.api_keys),
      )

  unfoldable pub list_usage_records :
      String → ℕ → ℕ → Reports → Plane → Plane × List (Stored UsageRecord)
  list_usage_records tenant_id limit offset reports p =
      let q = begin p in
      (
        close p,
        take limit (
            drop offset (
              database.order_by_desc (λ (s : Stored UsageRecord). s.created_at)
                (select
                  (λ (s : Stored UsageRecord).
                    tenant_isolation q.db.context (some s.row.tenant_id)
                    && (s.row.tenant_id ≟ tenant_id))
                  reports.usage_records))),
      )

  unfoldable pub list_usage_rollups :
      String → String → ℕ → Reports → Plane → Plane × List UsageRollup
  list_usage_rollups tenant_id period_type limit reports p =
      let q = begin p in
      (
        close p,
        take limit (
            database.order_by_desc (λ (r : UsageRollup). r.period_start)
              (select
                (λ (r : UsageRollup).
                  tenant_isolation q.db.context (some r.tenant_id)
                  && ((r.tenant_id ≟ tenant_id) && (r.period_type ≟ period_type)))
                reports.usage_rollups)),
      )

  unfoldable pub list_audit_log :
      Option String → Option String → ℕ → Reports → Plane → Plane × List (Stored AuditLog)
  list_audit_log tenant_id event_type limit reports p =
      let q = begin p in
      (
        close p,
        take limit (
            database.order_by_desc (λ (s : Stored AuditLog). s.created_at)
              (select
                (λ (s : Stored AuditLog).
                  tenant_isolation q.db.context s.row.tenant_id
                  && (is_about tenant_id s.row && has_type event_type s.row))
                reports.audit_log)),
      )

  -- Its statement is that of `list_audit_log` for one tenant.
  unfoldable pub list_tenant_audit_log :
      String → Option String → ℕ → Reports → Plane → Plane × List (Stored AuditLog)
  list_tenant_audit_log tenant_id event_type limit reports p =
      let q = begin p in
      (
        close p,
        take limit (
            database.order_by_desc (λ (s : Stored AuditLog). s.created_at)
              (select
                (λ (s : Stored AuditLog).
                  tenant_isolation q.db.context s.row.tenant_id
                  && (same_tenant s.row.tenant_id (some tenant_id) && has_type event_type s.row))
                reports.audit_log)),
      )
