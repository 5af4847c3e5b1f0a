-- ===== src/Scan/Tests.antt =====
-- A scan on concrete data.
use aegis_gateway.Prelude.{
  ℕ, ◌+◌, ◌≤◌, ◌&&◌, if◌then◌else◌, String, true, false, none, List, [], ◌∷◌, ◌≡◌, refl, arith,
}
use aegis_gateway.Database.{tenant_isolation}
use aegis_gateway.Scan.{Stored, TenantRow, State, spend, check_tenant, check_tenants}
use aegis_gateway.Scan.Laws.{alert_ends_scan}
use aegis_gateway.Scan.Once.{alerts, bit, scans, alerted_once}
use aegis_gateway.Scenario.{trail}

abbrev used : String → ℕ → Stored
used id cost = record {
  created_at = 10;
  usage = record {
    tenant_id = id;
    api_key_id = "k";
    provider = "openai";
    model = "gpt-4";
    prompt_tokens = 1;
    completion_tokens = 1;
    total_tokens = 2;
    cost_usd = cost;
    cache_hit = false;
    correlation_id = none;
  };
}

-- Both tenants have spent 90 of 100.
abbrev rows : List Stored
rows = used "t1" 90 ∷ used "t2" 90 ∷ []

abbrev first : TenantRow
first = record { id = "t1"; is_active = true; monthly_budget_usd = 100 }

abbrev second : TenantRow
second = record { id = "t2"; is_active = true; monthly_budget_usd = 100 }

abbrev scanning : State
scanning = record {
  db = record trail.db { context = record { tenant_id = none; bypass = true } };
  marked = λ id t. false;
}

alert_ends_scan_example :
    check_tenants 0 rows (first ∷ second ∷ []) scanning ≡ check_tenant 0 rows first scanning
unfolding spend tenant_isolation
alert_ends_scan_example =
    alert_ends_scan 0 rows first (second ∷ []) scanning (ground arith) (ground arith) refl

-- The job runs twice over the same records.
alerted_once_example :
    let s = scans 0 ((rows, first ∷ second ∷ []) ∷ (rows, first ∷ second ∷ []) ∷ []) scanning in
    (alerts "t1" 800 s.db.audit_log
      ≡ alerts "t1" 800 scanning.db.audit_log + (if true && s.marked "t1" 800 then 1 else 0))
    × (0 ≤ bit (s.marked "t1" 800))
alerted_once_example =
    alerted_once "t1" 800 0 ((rows, first ∷ second ∷ []) ∷ (rows, first ∷ second ∷ []) ∷ [])
      scanning
