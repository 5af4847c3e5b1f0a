-- ===== src/Scan/Laws.antt =====
-- Which tenants a scan can see.
use aegis_gateway.Prelude.{
  ℕ, ◌*◌, ◌<◌, ◌≤◌, ◌≡◌, refl, String, false, List, [], ◌∷◌, leb, arith, ap, ◌∙◌, Bool-cases, inl,
  inr,
}
use aegis_gateway.Database.{no_context, tenant_isolation, write_audit_event}
use aegis_gateway.Scan.{
  Stored, TenantRow, State, spend, check_threshold, check_tenant, check_tenants,
}

module _ (month_start : ℕ) (rows : List Stored) where
  -- Without a context the policy shows no row.
  spend-no_context : (id : String) (shown : List Stored) → spend no_context month_start id shown ≡ 0
  unfolding spend tenant_isolation
  spend-no_context id [] = refl
  spend-no_context id (row ∷ shown) = ground (arith, spend-no_context id shown)

  check_threshold-zero :
      (tenant : TenantRow) (t : ℕ) (s : State)
      → 0 < t * tenant.monthly_budget_usd
      → check_threshold tenant 0 t s ≡ s
  unfolding check_threshold
  check_threshold-zero tenant t s pos = ground arith

  check_tenant-blind :
      (tenant : TenantRow) (s : State)
      → s.db.context ≡ no_context
      → check_tenant month_start rows tenant s ≡ s
  unfolding check_tenant
  check_tenant-blind tenant s blind = elim (Bool-cases (leb tenant.monthly_budget_usd 0)) [
    | inl free ↦ simp free (refl)
    | inr paid ↦
        let low : 0 < 800 * tenant.monthly_budget_usd = ground arith in
        let high : 0 < 1000 * tenant.monthly_budget_usd = ground arith in
        simp paid (
          simp blind (
            simp (spend-no_context tenant.id rows) (
              ap (check_threshold tenant 0 1000) (check_threshold-zero tenant 800 s low)
              ∙ check_threshold-zero tenant 1000 s high)))
  ]

  check_tenants-blind :
      (tenants : List TenantRow) (s : State)
      → s.db.context ≡ no_context
      → check_tenants month_start rows tenants s ≡ s
  unfolding check_tenants
  check_tenants-blind [] s blind = refl
  check_tenants-blind (tenant ∷ tenants) s blind =
      ap (check_tenants month_start rows tenants) (check_tenant-blind tenant s blind)
      ∙ check_tenants-blind tenants s blind

  check_threshold-context :
      (tenant : TenantRow) (spent t : ℕ) (s : State)
      → s.db.context ≡ no_context
      → (check_threshold tenant spent t s).db.context ≡ no_context
  unfolding check_threshold write_audit_event
  check_threshold-context tenant spent t s blind = ground arith

  check_threshold-alerts :
      (tenant : TenantRow) (spent t : ℕ) (s : State)
      → t * tenant.monthly_budget_usd ≤ spent * 1000
      → s.marked tenant.id t ≡ false
      → (check_threshold tenant spent t s).db.context ≡ no_context
  unfolding check_threshold write_audit_event
  check_threshold-alerts tenant spent t s reached first = ground arith

  -- Once a tenant's alert is written, the scan does nothing for the tenants behind it in the loop,
  -- whatever they spent: the alert's commit ends the transaction that bypassed the policy, and
  -- their spend reads as 0. The tenant has a positive budget and has spent at least 80% of it,
  -- as its session shows, and the marker of 80% is not set.
  pub alert_ends_scan :
      (tenant : TenantRow) (tenants : List TenantRow) (s : State)
      → 0 < tenant.monthly_budget_usd
      → 800 * tenant.monthly_budget_usd ≤ spend s.db.context month_start tenant.id rows * 1000
      → s.marked tenant.id 800 ≡ false
      → check_tenants month_start rows (tenant ∷ tenants) s ≡ check_tenant month_start rows tenant s
  unfolding check_tenants check_tenant
  alert_ends_scan tenant tenants s paid reached first =
      let spent = spend s.db.context month_start tenant.id rows in
      let paying : leb tenant.monthly_budget_usd 0 ≡ false = ground arith in
      simp paying (
        check_tenants-blind tenants _ (
          check_threshold-context tenant spent 1000 _
            (check_threshold-alerts tenant spent 800 s reached first)))
