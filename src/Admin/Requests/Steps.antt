-- ===== src/Admin/Requests/Steps.antt =====
-- What one request that changes the accounts can do: its cases, with what held before and what is written.
use aegis_gateway.Prelude.{
  ℕ, String, Bool, true, false, ◌||◌, ◌&&◌, Option, none, some, List, [], ◌∷◌, ◌++◌, ◌≡◌, refl,
  arith, Bool-cases, Option-cases, inl, inr,
}
use aegis_gateway.Database.{AuditLog, object, no_context, set_rls_context, storable}
use aegis_gateway.Database.Laws.{write_audit_event_lem}
use aegis_gateway.Authentication.{ApiKey, Tenant}
use aegis_gateway.Json.{json_safe, safe_value, str, Fields, field, fields_serializable}
use aegis_gateway.Admin.{Plane, Tools, By, find_tenant, begin, close, audited}
use aegis_gateway.Admin.Tenants.{
  TenantCreateRequest, TenantUpdateRequest, tenant_of, patched, replace_tenant, has_null, id_taken,
  name_taken, create_tenant, updated, update_tenant,
}
use aegis_gateway.Admin.Keys.{
  key_taken, find_own_key, set_revoked, new_key, issued, create_api_key, revoked, revoke_api_key,
}
use aegis_gateway.Admin.Requests.{Request, create, patch, issue, revoke, handle, outcome}

abbrev pub logged : AuditLog → Plane → Plane
logged event p = record p {
  db = record p.db { audit_log = p.db.audit_log ++ event ∷ []; context = no_context };
}

-- The event is about the tenant, and names the admin and the request.
pub record Names (by : By) (tenant_id event_type : String) (event : AuditLog) : Type 0 where
  pub tenant : event.tenant_id ≡ some tenant_id
  pub what : event.event_type ≡ event_type
  pub request : event.correlation_id ≡ by.correlation_id
  pub who : (rest : Fields) × (event.detail ≡ object (field "admin_id" (str by.admin_id) rest))

pub data Step (tools : Tools) (by : By) (p : Plane) : Request → Plane × Bool → Type 0 where
  failed : (r : Request) → Step tools by p r (close p, false)
  created :
      (id : String) (now : ℕ) (payload : TenantCreateRequest) (event : AuditLog)
      → Names by id "admin.tenant_created" event
      → id_taken id p.tenants ≡ false
      → name_taken id payload.name p.tenants ≡ false
      → Step tools by p
          (create id now payload)
          (logged event (record p { tenants = tenant_of id now payload ∷ p.tenants }), true)
  changed :
      (id : String) (payload : TenantUpdateRequest) (t : Tenant) (event : AuditLog)
      → Names by t.settings.tenant_id "admin.tenant_updated" event
      → find_tenant id p.tenants ≡ some t
      → name_taken t.settings.tenant_id (patched payload t).settings.tenant_name p.tenants ≡ false
      → Step tools by p
          (patch id payload)
          (logged event (record p { tenants = replace_tenant (patched payload t) p.tenants }), true)
  issued_to :
      (id name : String) (now : ℕ) (key_id secret_part : List ℕ) (t : Tenant) (event : AuditLog)
      → Names by t.settings.tenant_id "admin.api_key_issued" event
      → find_tenant id p.tenants ≡ some t
      → key_taken key_id p.api_keys ≡ false
      → Step tools by p (issue id name now (key_id, secret_part)) (
        logged event (record p {
          api_keys = new_key tools t.settings.tenant_id name now (key_id, secret_part) ∷ p.api_keys;
        }),
        true,
      )
  revoked_now :
      (id : String) (key_id : List ℕ) (now : ℕ) (k : ApiKey) (event : AuditLog)
      → Names by id "admin.api_key_revoked" event
      → find_own_key id key_id p.api_keys ≡ some k
      → k.revoked_at ≡ none
      → Step tools by p
          (revoke id key_id now)
          (logged event (record p { api_keys = set_revoked now key_id p.api_keys }), true)
  revoked_before :
      (id : String) (key_id : List ℕ) (now : ℕ) (k : ApiKey) (at : ℕ)
      → find_own_key id key_id p.api_keys ≡ some k
      → k.revoked_at ≡ some at
      → Step tools by p (revoke id key_id now) (close p, true)

module _ (tools : Tools) (by : By) (p : Plane) where
  -- The last step: the changes and the event are kept, or nothing is.
  audited-Step :
      (r : Request) {A : Type 0} (tenant_id event_type : String) (rest : Fields) (after : Plane)
      (value : A)
      → ((event : AuditLog)
          → Names by tenant_id event_type event
          → Step tools by p r (logged event after, true))
      → Step tools by p r (
          outcome (
            audited by
              (some tenant_id)
              event_type
              (field "admin_id" (str by.admin_id) rest)
              p
              after
              value))
  unfolding audited
  audited-Step r tenant_id event_type rest after value h =
      elim (Bool-cases (
        fields_serializable (field "admin_id" (str by.admin_id) rest)
        && storable by.correlation_id)) [
          | inl ok ↦
              let short : storable by.correlation_id ≡ true = ground arith in
              simp ok (
                simp (write_audit_event_lem _ after.db short)
                  (h _ (record { tenant = refl; what = refl; request = refl; who = (rest, refl) })))
          | inr bad ↦ simp bad (failed r)
        ]

  create_tenant-Step :
      (id : String) (now : ℕ) (payload : TenantCreateRequest)
      → Step tools by p (create id now payload) (outcome (create_tenant tools by id now payload p))
  unfolding create_tenant begin set_rls_context json_safe safe_value
  create_tenant-Step id now payload =
      elim (Bool-cases (id_taken id p.tenants || name_taken id payload.name p.tenants)) [
        | inl bad ↦ simp bad (failed _)
        | inr ok ↦ simp ok (
            audited-Step _ _ _ _ _ _
              (λ event named. created id now payload event named (ground arith) (ground arith)))
      ]

  updated-Step :
      (id : String) (payload : TenantUpdateRequest) (o : Option Tenant)
      → find_tenant id p.tenants ≡ o
      → Step tools by p (patch id payload) (outcome (updated tools by payload o p))
  unfolding updated begin set_rls_context json_safe safe_value
  updated-Step id payload none e = failed _
  updated-Step id payload (some t) e =
      elim (Bool-cases (
        has_null payload
        || name_taken t.settings.tenant_id (patched payload t).settings.tenant_name p.tenants)) [
          | inl bad ↦ simp bad (failed _)
          | inr ok ↦ simp ok (
              audited-Step _ _ _ _ _ _
                (λ event named. changed id payload t event named e (ground arith)))
        ]

  issued-Step :
      (id name : String) (now : ℕ) (generated : List ℕ × List ℕ) (o : Option Tenant)
      → find_tenant id p.tenants ≡ o
      → Step tools by p
          (issue id name now generated)
          (outcome (issued tools by name now generated o p))
  unfolding issued begin set_rls_context
  issued-Step id name now generated none e = failed _
  issued-Step id name now (key_id, secret_part) (some t) e =
      elim (Bool-cases (key_taken key_id p.api_keys)) [
        | inl bad ↦ simp bad (failed _)
        | inr ok ↦ simp ok (
            audited-Step _ _ _ _ _ _
              (λ event named. issued_to id name now key_id secret_part t event named e ok))
      ]

  revoked-Step :
      (id : String) (key_id : List ℕ) (now : ℕ) (o : Option ApiKey)
      → find_own_key id key_id p.api_keys ≡ o
      → Step tools by p (revoke id key_id now) (outcome (revoked tools by id key_id now o p))
  unfolding revoked begin set_rls_context
  revoked-Step id key_id now none e = failed _
  revoked-Step id key_id now (some k) e = elim (Option-cases k.revoked_at) [
    | inl valid ↦
        simp valid (
          audited-Step _ _ _ _ _ _ (λ event named. revoked_now id key_id now k event named e valid))
    | inr (at, before) ↦ simp before (revoked_before id key_id now k at e before)
  ]

  -- Every request does one of the steps.
  pub handle-Step : (r : Request) → Step tools by p r (handle tools (by, r) p)
  unfolding handle update_tenant create_api_key revoke_api_key begin
  handle-Step (create id now payload) = create_tenant-Step id now payload
  handle-Step (patch id payload) = updated-Step id payload (find_tenant id p.tenants) refl
  handle-Step (issue id name now generated) =
      issued-Step id name now generated (find_tenant id p.tenants) refl
  handle-Step (revoke id key_id now) =
      revoked-Step id key_id now (find_own_key id key_id p.api_keys) refl
