-- ===== src/Scan/Once.antt =====
-- How often a tenant is told.
use aegis_gateway.Prelude.{
  ℕ, ◌+◌, ◌≡◌, refl, String, Bool, true, false, not, ◌&&◌, ◌≤◌, Option, none, some, List, [], ◌∷◌,
  ◌++◌, ◌==◌, ◌≟◌, leb, arith, Bool-cases, inl, inr, eq_iff, if◌then◌else◌,
}
use aegis_gateway.Database.{
  Detail, threshold, AuditLog, set_rls_context, write_audit_event, tenant_isolation,
}
use aegis_gateway.Scan.{
  Stored, TenantRow, State, mark, spend, check_threshold, check_tenant, check_tenants, active,
  budget_threshold_scan,
}

abbrev pub of_threshold : ℕ → Detail → Bool
of_threshold t (threshold reached spent budget) = reached == t
of_threshold t _ = false

abbrev pub of_tenant : String → Option String → Bool
of_tenant id none = false
of_tenant id (some tenant_id) = tenant_id ≟ id

-- The event that tells the tenant of the threshold.
abbrev pub is_alert : String → ℕ → AuditLog → Bool
is_alert id t row = of_tenant id row.tenant_id && of_threshold t row.detail

unfoldable pub alerts : String → ℕ → List AuditLog → ℕ
alerts id t [] = 0
alerts id t (row ∷ log) = (if is_alert id t row then 1 else 0) + alerts id t log

abbrev pub bit : Bool → ℕ
bit b = if b then 1 else 0

alerts-append :
    (id : String) (t : ℕ) (log : List AuditLog) (row : AuditLog)
    → alerts id t (log ++ row ∷ []) ≡ alerts id t log + (if is_alert id t row then 1 else 0)
unfolding alerts
alerts-append id t [] row = omega arith
alerts-append id t (r ∷ log) row = omega (arith, alerts-append id t log row)

module _ (id : String) (t : ℕ) where
  -- The events and the marker of the tenant and the threshold move together.
  abbrev Balanced : State → State → Type 0
  Balanced s s' =
      (alerts id t s'.db.audit_log + bit (s.marked id t)
        ≡ alerts id t s.db.audit_log + bit (s'.marked id t))
      × (bit (s.marked id t) ≤ bit (s'.marked id t))

  check_threshold-Balanced :
      (tenant : TenantRow) (spent reached : ℕ) (s : State)
      → Balanced s (check_threshold tenant spent reached s)
  unfolding check_threshold write_audit_event tenant_isolation mark
  check_threshold-Balanced tenant spent reached s = ground (
    arith,
    eq_iff tenant.id id,
    alerts-append id t s.db.audit_log (record {
      tenant_id = some tenant.id;
      event_type = "budget.threshold_reached";
      correlation_id = none;
      detail = threshold reached spent tenant.monthly_budget_usd;
    }),
  )

  check_tenant-Balanced :
      (month_start : ℕ) (rows : List Stored) (tenant : TenantRow) (s : State)
      → Balanced s (check_tenant month_start rows tenant s)
  unfolding check_tenant
  check_tenant-Balanced month_start rows tenant s =
      let spent = spend s.db.context month_start tenant.id rows in
      let first = check_threshold tenant spent 800 s in
      elim (Bool-cases (leb tenant.monthly_budget_usd 0)) [
        | inl free ↦ simp free ((refl, omega arith))
        | inr paid ↦ simp paid (
            omega (
              arith,
              check_threshold-Balanced tenant spent 800 s,
              check_threshold-Balanced tenant spent 1000 first,
            ))
      ]

  check_tenants-Balanced :
      (month_start : ℕ) (rows : List Stored) (tenants : List TenantRow) (s : State)
      → Balanced s (check_tenants month_start rows tenants s)
  unfolding check_tenants
  check_tenants-Balanced month_start rows [] s = (refl, omega arith)
  check_tenants-Balanced month_start rows (tenant ∷ tenants) s = omega (
    arith,
    check_tenant-Balanced month_start rows tenant s,
    check_tenants-Balanced month_start rows tenants (check_tenant month_start rows tenant s),
  )

  scan-Balanced :
      (month_start : ℕ) (rows : List Stored) (tenants : List TenantRow) (s : State)
      → Balanced s (budget_threshold_scan month_start rows tenants s)
  unfolding budget_threshold_scan set_rls_context
  scan-Balanced month_start rows tenants s =
      check_tenants-Balanced month_start rows (active month_start rows tenants)
        (record s { db = set_rls_context none true s.db })

-- The scans of a month, each over the usage records and the tenants of its time.
unfoldable pub scans : ℕ → List (List Stored × List TenantRow) → State → State
scans month_start [] s = s
scans month_start ((rows, tenants) ∷ rounds) s =
    scans month_start rounds (budget_threshold_scan month_start rows tenants s)

scans-Balanced :
    (id : String) (t month_start : ℕ) (rounds : List (List Stored × List TenantRow)) (s : State)
    → Balanced id t s (scans month_start rounds s)
unfolding scans
scans-Balanced id t month_start [] s = (refl, omega arith)
scans-Balanced id t month_start ((rows, tenants) ∷ rounds) s = omega (
  arith,
  scan-Balanced id t month_start rows tenants s,
  scans-Balanced id t month_start rounds (budget_threshold_scan month_start rows tenants s),
)

-- However often the job runs in a month, whatever the tenants have spent by then, and whichever tenants
-- there are: the audit log gets at most one event for a tenant and a threshold, namely one exactly
-- if their marker was not set before the first run and is set after the last, and none otherwise; a marker
-- that is set stays set.
pub alerted_once :
    (id : String) (t month_start : ℕ) (rounds : List (List Stored × List TenantRow)) (s : State)
    → let s' = scans month_start rounds s in
      (alerts id t s'.db.audit_log
        ≡ alerts id t s.db.audit_log + (if not (s.marked id t) && s'.marked id t then 1 else 0))
      × (bit (s.marked id t) ≤ bit (s'.marked id t))
alerted_once id t month_start rounds s = ground (arith, scans-Balanced id t month_start rounds s)
