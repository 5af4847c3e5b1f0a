-- ===== src/Admin/Tenants.antt =====
-- src/aegis_gateway/api/admin.py: `create_tenant`, `get_tenant` and `update_tenant`, with the requests of
-- schemas/admin.py.
use aegis_gateway.Prelude.{
  ℕ, String, Bool, true, false, ◌&&◌, ◌||◌, not, Option, none, some, List, [], ◌∷◌, ◌≟◌,
  if◌then◌else◌,
}
use aegis_gateway.Context.{Mode, block, log}
use aegis_gateway.Json.{Json, bool, int, float, str, decimal, dict, Fields, nil, field, json_safe}
use aegis_gateway.Authentication.{Tenant}
use aegis_gateway.Admin.{
  Plane, Reply, done, not_found, crashed, Tools, By, begin, close, find_tenant, audited,
}

-- `TenantCreateRequest`, with its defaults filled in.
pub record TenantCreateRequest : Type 0 where
  pub name : String
  pub monthly_budget_usd : ℕ
  pub rate_limit_rpm : ℕ
  pub rate_limit_tpm : ℕ
  pub max_concurrent_requests : ℕ
  pub pii_redaction_enabled : Bool
  pub injection_detection_enabled : Bool
  pub injection_detection_threshold : ℕ
  pub injection_detection_mode : Mode
  pub cache_enabled : Bool

-- A field of `TenantUpdateRequest`: not in the request, in it as null, or in it with a value.
pub data Change {ℓ} (A : Type ℓ) : Type ℓ where
  unset null : Change A
  set : A → Change A

pub record TenantUpdateRequest : Type 0 where
  pub name : Change String
  pub monthly_budget_usd : Change ℕ
  pub rate_limit_rpm : Change ℕ
  pub rate_limit_tpm : Change ℕ
  pub max_concurrent_requests : Change ℕ
  pub pii_redaction_enabled : Change Bool
  pub injection_detection_enabled : Change Bool
  pub injection_detection_threshold : Change ℕ
  pub injection_detection_mode : Change Mode
  pub cache_enabled : Change Bool
  pub is_active : Change Bool

-- `Tenant(**payload.model_dump())`; the id and the time are the column's defaults.
unfoldable pub tenant_of : String → ℕ → TenantCreateRequest → Tenant
tenant_of id now r = record {
  settings = record {
    tenant_id = id;
    tenant_name = r.name;
    api_key_id = "";
    monthly_budget_usd = r.monthly_budget_usd;
    rate_limit_rpm = r.rate_limit_rpm;
    rate_limit_tpm = r.rate_limit_tpm;
    max_concurrent_requests = r.max_concurrent_requests;
    pii_redaction_enabled = r.pii_redaction_enabled;
    injection_detection_enabled = r.injection_detection_enabled;
    injection_detection_threshold = r.injection_detection_threshold;
    injection_detection_mode = r.injection_detection_mode;
    cache_enabled = r.cache_enabled;
  };
  is_active = true;
  created_at = now;
}

-- The primary key: a tenant has the id.
unfoldable pub id_taken : String → List Tenant → Bool
id_taken id [] = false
id_taken id (t ∷ tenants) = (t.settings.tenant_id ≟ id) || id_taken id tenants

-- The unique constraint on the name: another tenant has it.
unfoldable pub name_taken : String → String → List Tenant → Bool
name_taken id name [] = false
name_taken id name (t ∷ tenants) =
    ((t.settings.tenant_name ≟ name) && not (t.settings.tenant_id ≟ id))
    || name_taken id name tenants

-- `setattr` of a field that is in the request.
unfoldable pub changed {ℓ} : {A : Type ℓ} → Change A → A → A
changed unset old = old
changed null old = old
changed (set new) old = new

abbrev pub is_null {ℓ} : {A : Type ℓ} → Change A → Bool
is_null null = true
is_null _ = false

-- No column of the request may be NULL.
unfoldable pub has_null : TenantUpdateRequest → Bool
has_null r =
    is_null r.name
    || is_null r.monthly_budget_usd
    || is_null r.rate_limit_rpm
    || is_null r.rate_limit_tpm
    || is_null r.max_concurrent_requests
    || is_null r.pii_redaction_enabled
    || is_null r.injection_detection_enabled
    || is_null r.injection_detection_threshold
    || is_null r.injection_detection_mode
    || is_null r.cache_enabled
    || is_null r.is_active

unfoldable pub patched : TenantUpdateRequest → Tenant → Tenant
unfolding changed
patched r t = record {
  settings = record t.settings {
    tenant_name = changed r.name t.settings.tenant_name;
    monthly_budget_usd = changed r.monthly_budget_usd t.settings.monthly_budget_usd;
    rate_limit_rpm = changed r.rate_limit_rpm t.settings.rate_limit_rpm;
    rate_limit_tpm = changed r.rate_limit_tpm t.settings.rate_limit_tpm;
    max_concurrent_requests = changed r.max_concurrent_requests t.settings.max_concurrent_requests;
    pii_redaction_enabled = changed r.pii_redaction_enabled t.settings.pii_redaction_enabled;
    injection_detection_enabled =
        changed r.injection_detection_enabled t.settings.injection_detection_enabled;
    injection_detection_threshold =
        changed r.injection_detection_threshold t.settings.injection_detection_threshold;
    injection_detection_mode =
        changed r.injection_detection_mode t.settings.injection_detection_mode;
    cache_enabled = changed r.cache_enabled t.settings.cache_enabled;
  };
  is_active = changed r.is_active t.is_active;
  created_at = t.created_at;
}

-- `model_dump(exclude_unset=True)`
unfoldable pub dumped {ℓ} : {A : Type ℓ} → String → (A → Json) → Change A → Fields → Fields
dumped name json unset fields = fields
dumped name json null fields = field name Json.null fields
dumped name json (set value) fields = field name (json value) fields

abbrev pub mode_json : Mode → Json
mode_json block = str "block"
mode_json log = str "log"

unfoldable pub changes : TenantUpdateRequest → Fields
unfolding dumped
changes r = dumped "name" str r.name (
    dumped "monthly_budget_usd" decimal r.monthly_budget_usd (
      dumped "rate_limit_rpm" int r.rate_limit_rpm (
        dumped "rate_limit_tpm" int r.rate_limit_tpm (
          dumped "max_concurrent_requests" int r.max_concurrent_requests (
            dumped "pii_redaction_enabled" bool r.pii_redaction_enabled (
              dumped "injection_detection_enabled" bool r.injection_detection_enabled (
                dumped "injection_detection_threshold" float r.injection_detection_threshold (
                  dumped "injection_detection_mode" mode_json r.injection_detection_mode (
                    dumped "cache_enabled" bool r.cache_enabled
                      (dumped "is_active" bool r.is_active nil))))))))))

-- The row with the tenant's id, replaced.
unfoldable pub replace_tenant : Tenant → List Tenant → List Tenant
replace_tenant t [] = []
replace_tenant t (u ∷ tenants) =
    (if u.settings.tenant_id ≟ t.settings.tenant_id then t else u) ∷ replace_tenant t tenants

module _ (tools : Tools) (by : By) where
  -- `id` and `now` are what the defaults of the columns give.
  unfoldable pub create_tenant : String → ℕ → TenantCreateRequest → Plane → Plane × Reply Tenant
  create_tenant id now payload p =
      let q = begin p in
      let tenant = tenant_of id now payload in
      if id_taken id q.tenants || name_taken id payload.name q.tenants
      then (close p, crashed)
      else audited by (some id) "admin.tenant_created"
          (json_safe tools.print_decimal
            (field "admin_id" (str by.admin_id) (field "name" (str payload.name) nil)))
          p (record q { tenants = tenant ∷ q.tenants }) tenant

  unfoldable pub updated : TenantUpdateRequest → Option Tenant → Plane → Plane × Reply Tenant
  updated payload none p = (close p, not_found "Tenant not found.")
  updated payload (some t) p =
      let q = begin p in
      let tenant = patched payload t in
      if has_null payload || name_taken t.settings.tenant_id tenant.settings.tenant_name q.tenants
      then (close p, crashed)
      else audited by (some t.settings.tenant_id) "admin.tenant_updated"
          (json_safe tools.print_decimal
            (field "admin_id" (str by.admin_id) (field "changes" (dict (changes payload)) nil)))
          p (record q { tenants = replace_tenant tenant q.tenants }) tenant

  unfoldable pub update_tenant : String → TenantUpdateRequest → Plane → Plane × Reply Tenant
  update_tenant tenant_id payload p = updated payload (find_tenant tenant_id (begin p).tenants) p

abbrev pub found_or_404 {ℓ} : {A : Type ℓ} → Option A → Reply A
found_or_404 none = not_found "Tenant not found."
found_or_404 (some a) = done a

unfoldable pub get_tenant : String → Plane → Plane × Reply Tenant
get_tenant tenant_id p = (close p, found_or_404 (find_tenant tenant_id (begin p).tenants))
