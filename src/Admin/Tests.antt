-- ===== src/Admin/Tests.antt =====
-- The admin API on concrete inputs.
pub mod Access
use aegis_gateway.Prelude.{
  ℕ, ◌+◌, ◌*◌, String, Bool, true, false, Option, none, some, List, [], ◌∷◌, ◌++◌, ◌≡◌, ◌⊎◌, inl,
  inr, refl, leb, ltb, ◌≟◌, ◌==◌, if◌then◌else◌, arith,
}
use aegis_gateway.Context.{log}
use aegis_gateway.CodePoints.{same, remove_prefix, strip, lstrip}
use aegis_gateway.ProviderError.{unauthorized_error}
use aegis_gateway.Json.{str, nil, field, fields_serializable}
use aegis_gateway.Database.{Db, object, no_context}
use aegis_gateway.Database.{storable}
use aegis_gateway.Authentication.{
  refusal, ApiKey, Tenant, unauthorized, presented, parse_api_key, full_key, after_space, partition,
}
use aegis_gateway.Scenario.{tenant, trail}
use aegis_gateway.Admin.{Plane, Tools, By, find_tenant, begin, audited}
use aegis_gateway.Admin.Tenants.{
  TenantUpdateRequest, id_taken, name_taken, has_null, changed, unset, null, set,
}
use aegis_gateway.Admin.Keys.{key_taken, find_own_key, revoked, revoke_api_key, create_api_key}
use aegis_gateway.Admin.Requests.{
  Request, create, patch, issue, revoke, handle, run, verdicts, distinct_keys, view,
}
use aegis_gateway.Admin.Requests.Spec.{Runs, run_refines}
use aegis_gateway.Admin.Requests.Success.{permitted, handle_succeeds}
use aegis_gateway.Admin.Requests.Invariant.{
  IsValid, has_name, distinct_ids, distinct_names, owned, requests-IsValid,
}
use aegis_gateway.Admin.Requests.Trail.{IsUnchanged, IsLogged, handle-IsLogged}
use aegis_gateway.Admin.Lifecycle.{
  authenticate, Event, administer, arrive, serve_all, bearer_header,
}
use aegis_gateway.Admin.Lifecycle.Revoked.{revoked_key_refused}
use aegis_gateway.Admin.Lifecycle.Issued.{IsGenerated, Opens, create_api_key-Opens}

abbrev pub key_id : List ℕ
key_id = b'1' ∷ b'f' ∷ []

abbrev pub secret_part : List ℕ
secret_part = b's' ∷ []

abbrev first_key : ApiKey
first_key = record {
  key_id = key_id;
  tenant_id = "t1";
  hashed_secret = "digest";
  name = "first";
  created_at = 0;
  revoked_at = none;
  last_used_at = none;
}

abbrev pub acme : Tenant
acme = record { settings = tenant; is_active = true; created_at = 0 }

abbrev pub plane : Plane
plane = record { db = trail.db; tenants = acme ∷ []; api_keys = first_key ∷ [] }

abbrev pub tools : Tools
tools = record {
  print_decimal = λ n. "0.50";
  print_key_id = λ id. "1f";
  hash_api_key_secret = λ s. "digest";
}

abbrev pub by : By
by = record { admin_id = "a1"; correlation_id = some "c9" }

abbrev no_change : TenantUpdateRequest
no_change = record {
  name = unset;
  monthly_budget_usd = unset;
  rate_limit_rpm = unset;
  rate_limit_tpm = unset;
  max_concurrent_requests = unset;
  pii_redaction_enabled = unset;
  injection_detection_enabled = unset;
  injection_detection_threshold = unset;
  injection_detection_mode = unset;
  cache_enabled = unset;
  is_active = unset;
}

-- A mode, a budget, a second key and a revocation.
abbrev requests : List (By × Request)
requests =
    (by, patch "t1" (record no_change { injection_detection_mode = set log }))
    ∷ (by, patch "t1" (record no_change { monthly_budget_usd = set 5 }))
    ∷ (by, issue "t1" "second" 9 (b'2' ∷ [], secret_part))
    ∷ (by, revoke "t1" key_id 10)
    ∷ []

plane-IsValid : IsValid plane
unfolding distinct_ids distinct_names owned id_taken has_name distinct_keys key_taken
plane-IsValid = record { ids = refl; names = refl; keys = refl; owners = refl }

run_refines_example :
    Runs tools requests
      (verdicts tools requests plane)
      (view plane)
      (view (run tools requests plane))
    × IsValid (run tools requests plane)
run_refines_example = run_refines tools requests plane plane-IsValid

-- A budget is refused, with the tenant there.
handle_succeeds_example :
    (handle tools (by, patch "t1" (record no_change { monthly_budget_usd = set 5 })) plane).1
    ≡ permitted by plane (patch "t1" (record no_change { monthly_budget_usd = set 5 }))
handle_succeeds_example =
    handle_succeeds tools by plane (patch "t1" (record no_change { monthly_budget_usd = set 5 }))

budget_not_permitted :
    permitted by plane (patch "t1" (record no_change { monthly_budget_usd = set 5 })) ≡ false
unfolding find_tenant has_null name_taken changed storable
budget_not_permitted = refl

handle-IsLogged_example :
    IsUnchanged plane (handle tools (by, revoke "t1" key_id 10) plane).0
    ⊎ IsLogged by (revoke "t1" key_id 10) plane (handle tools (by, revoke "t1" key_id 10) plane)
handle-IsLogged_example = handle-IsLogged tools by plane (revoke "t1" key_id 10)

abbrev header : List ℕ
header = bearer_header (full_key key_id secret_part)

revoked_key_refused_example :
    (authenticate tools 20 none header (
      serve_all tools
        (arrive 11 none header
          ∷ administer by (issue "t1" "second" 12 (b'2' ∷ [], secret_part))
          ∷ [])
        (handle tools (by, revoke "t1" key_id 10) plane).0)).1
    ≡ refusal none "Invalid API key provided."
unfolding presented parse_api_key full_key distinct_keys key_taken handle revoke_api_key revoked
    find_own_key begin same audited fields_serializable remove_prefix strip after_space partition
    storable
revoked_key_refused_example =
    revoked_key_refused tools by "t1" key_id 10 plane refl refl
      (arrive 11 none header ∷ administer by (issue "t1" "second" 12 (b'2' ∷ [], secret_part)) ∷ [])
      20 none header (full_key key_id secret_part) secret_part refl refl
