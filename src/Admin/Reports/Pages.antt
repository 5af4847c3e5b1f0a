-- ===== src/Admin/Reports/Pages.antt =====
-- What the reading handlers show.
use mathlib.Core.Path.{subst}
use aegis_gateway.Prelude.{ℕ, String, true, ◌&&◌, Option, some, ◌≡◌, refl, ◌≟◌}
use aegis_gateway.Database.{AuditLog, UsageRecord, set_rls_context, tenant_isolation}
use aegis_gateway.Rollup.{UsageRollup}
use aegis_gateway.Authentication.{ApiKey, Tenant}
use aegis_gateway.Admin.{Plane, begin}
use aegis_gateway.Admin.Reports.{
  Stored, Reports, OrderBy, has_type, is_about, take, drop, list_tenants, list_api_keys,
  list_usage_records, list_usage_rollups, list_audit_log, list_tenant_audit_log,
}
use aegis_gateway.Admin.Reports.Ordered.{
  IsOrdering, IsPage, IsWhole, page-IsPage, ordered-IsWhole, select_all,
}

module _ (database : OrderBy) (reports : Reports) (p : Plane) where
  -- What each handler that reads shows: of a tenant's rows only that tenant's, of the system-wide log what the
  -- filters ask for.
  pub record ArePages : Type 0 where
    pub tenants :
        (limit offset : ℕ)
        → IsPage
            (λ (t : Tenant). t.created_at)
            (λ t. true)
            limit
            offset
            p.tenants
            (list_tenants database limit offset p).1
    pub api_keys :
        (tenant_id : String)
        → IsWhole
            (λ (k : ApiKey). k.created_at)
            (λ k. k.tenant_id ≟ tenant_id)
            p.api_keys
            (list_api_keys database tenant_id p).1
    pub usage_records :
        (tenant_id : String) (limit offset : ℕ)
        → IsPage
            (λ (s : Stored UsageRecord). s.created_at)
            (λ s. s.row.tenant_id ≟ tenant_id)
            limit
            offset
            reports.usage_records
            (list_usage_records database tenant_id limit offset reports p).1
    pub usage_rollups :
        (tenant_id period_type : String) (limit : ℕ)
        → IsPage
            (λ (r : UsageRollup). r.period_start)
            (λ r. (r.tenant_id ≟ tenant_id) && (r.period_type ≟ period_type))
            limit
            0
            reports.usage_rollups
            (list_usage_rollups database tenant_id period_type limit reports p).1
    pub audit_log :
        (tenant_id event_type : Option String) (limit : ℕ)
        → IsPage
            (λ (s : Stored AuditLog). s.created_at)
            (λ s. is_about tenant_id s.row && has_type event_type s.row)
            limit
            0
            reports.audit_log
            (list_audit_log database tenant_id event_type limit reports p).1
    pub tenant_audit_log :
        (tenant_id : String) (event_type : Option String) (limit : ℕ)
        → list_tenant_audit_log database tenant_id event_type limit reports p
          ≡ list_audit_log database (some tenant_id) event_type limit reports p

  module _ (o : IsOrdering database) where
    tenants-IsPage :
        (limit offset : ℕ)
        → IsPage
            (λ (t : Tenant). t.created_at)
            (λ t. true)
            limit
            offset
            p.tenants
            (list_tenants database limit offset p).1
    unfolding list_tenants begin
    tenants-IsPage limit offset =
        subst
          (λ rows.
            IsPage (λ (t : Tenant). t.created_at) (λ t. true) limit offset p.tenants
              (take limit
                (drop offset (database.order_by_desc (λ (t : Tenant). t.created_at) rows))))
          (select_all p.tenants) (page-IsPage database o _ (λ t. true) p.tenants limit offset)

    -- If ORDER BY sorts: each handler that lists rows shows only rows of the table that it is asked for, newest first,
    -- and of those since any time as many as its limit allows behind its offset; the list of a tenant's
    -- keys is whole. A tenant's audit log is the system-wide log with that tenant as the filter.
    pub reports-ArePages : ArePages
    unfolding list_api_keys list_usage_records list_usage_rollups list_audit_log
        list_tenant_audit_log begin set_rls_context tenant_isolation
    reports-ArePages = record {
      tenants = tenants-IsPage;
      api_keys = λ tenant_id. ordered-IsWhole database o _ _ p.api_keys;
      usage_records =
          λ tenant_id limit offset. page-IsPage database o _ _ reports.usage_records limit offset;
      usage_rollups =
          λ tenant_id period_type limit. page-IsPage database o _ _ reports.usage_rollups limit 0;
      audit_log =
          λ tenant_id event_type limit. page-IsPage database o _ _ reports.audit_log limit 0;
      tenant_audit_log = λ tenant_id event_type limit. refl;
    }
