-- ===== src/Admin/Requests/Success.antt =====
-- When a request that changes the accounts succeeds.
use aegis_gateway.Prelude.{
  ℕ, String, Bool, true, false, ◌&&◌, ◌||◌, not, Option, none, some, List, ◌≡◌, refl, arith,
  Bool-cases, inl, inr,
}
use aegis_gateway.Database.{set_rls_context, storable}
use aegis_gateway.Json.{
  Json, Fields, bool, int, float, decimal, str, serializable, fields_serializable, json_safe,
  safe_value,
}
use aegis_gateway.Context.{Mode, block, log}
use aegis_gateway.Authentication.{ApiKey, Tenant}
use aegis_gateway.Admin.{Plane, Tools, By, find_tenant, begin, audited}
use aegis_gateway.Admin.Tenants.{
  Change, unset, null, set, TenantCreateRequest, TenantUpdateRequest, patched, changed, id_taken,
  name_taken, has_null, dumped, mode_json, changes, create_tenant, updated, update_tenant,
}
use aegis_gateway.Admin.Keys.{
  key_taken, find_own_key, issued, create_api_key, revoked, revoke_api_key,
}
use aegis_gateway.Admin.Requests.{Request, create, patch, issue, revoke, handle, outcome}

abbrev pub is_set {ℓ} : {A : Type ℓ} → Change A → Bool
is_set unset = false
is_set null = false
is_set (set value) = true

abbrev pub fits : TenantUpdateRequest → List Tenant → Option Tenant → Bool
fits r tenants none = false
fits r tenants (some t) =
    not (
      has_null r || name_taken t.settings.tenant_id (changed r.name t.settings.tenant_name) tenants)
    && not (is_set r.monthly_budget_usd)

abbrev pub given {ℓ} : {A : Type ℓ} → Option A → Bool
given none = false
given (some a) = true

-- The condition of each request.
-- A key can be revoked: again without an event.
abbrev pub revocable : By → Option ApiKey → Bool
revocable by none = false
revocable by (some k) = storable by.correlation_id || given k.revoked_at

abbrev pub permitted : By → Plane → Request → Bool
permitted by p (create id now payload) =
    storable by.correlation_id
    && not (id_taken id p.tenants || name_taken id payload.name p.tenants)
permitted by p (patch id payload) =
    storable by.correlation_id && fits payload p.tenants (find_tenant id p.tenants)
permitted by p (issue id name now (key_id, secret_part)) =
    storable by.correlation_id
    && given (find_tenant id p.tenants)
    && not (key_taken key_id p.api_keys)
permitted by p (revoke id key_id now) = revocable by (find_own_key id key_id p.api_keys)

module _ {ℓ} {A : Type ℓ} where
  -- A field of the dump whose values are JSON.
  fields_serializable-dumped :
      (name : String) (json : A → Json) (change : Change A) (fields : Fields)
      → ((value : A) → serializable (json value) ≡ true)
      → fields_serializable (dumped name json change fields) ≡ fields_serializable fields
  unfolding dumped fields_serializable serializable
  fields_serializable-dumped name json unset fields h = refl
  fields_serializable-dumped name json null fields h = refl
  fields_serializable-dumped name json (set value) fields h = ground (arith, h value)

serializable-mode_json : (m : Mode) → serializable (mode_json m) ≡ true
unfolding serializable
serializable-mode_json block = refl
serializable-mode_json log = refl

fields_serializable-budget :
    (change : Change ℕ) (fields : Fields)
    → fields_serializable (dumped "monthly_budget_usd" decimal change fields)
      ≡ (not (is_set change) && fields_serializable fields)
unfolding dumped fields_serializable serializable
fields_serializable-budget unset fields = refl
fields_serializable-budget null fields = refl
fields_serializable-budget (set budget) fields = refl

-- What a PATCH dumps is JSON unless it sets the budget.
fields_serializable-changes :
    (r : TenantUpdateRequest) → fields_serializable (changes r) ≡ not (is_set r.monthly_budget_usd)
unfolding changes serializable fields_serializable
fields_serializable-changes r =
    let text = λ (name : String) (c : Change String) (f : Fields).
      fields_serializable-dumped name str c f (λ v. refl) in
    let number = λ (name : String) (c : Change ℕ) (f : Fields).
      fields_serializable-dumped name int c f (λ v. refl) in
    let real = λ (name : String) (c : Change ℕ) (f : Fields).
      fields_serializable-dumped name float c f (λ v. refl) in
    let flag = λ (name : String) (c : Change Bool) (f : Fields).
      fields_serializable-dumped name bool c f (λ v. refl) in
    let mode = λ (name : String) (c : Change Mode) (f : Fields).
      fields_serializable-dumped name mode_json c f serializable-mode_json in
    simp (text, number, real, flag, mode, fields_serializable-budget) (ground arith)

module _ (tools : Tools) (by : By) (p : Plane) where
  success_create :
      (id : String) (now : ℕ) (payload : TenantCreateRequest)
      → (handle tools (by, create id now payload) p).1 ≡ permitted by p (create id now payload)
  unfolding handle create_tenant begin set_rls_context audited json_safe safe_value
      fields_serializable serializable
  success_create id now payload =
      elim (Bool-cases (id_taken id p.tenants || name_taken id payload.name p.tenants)) [
        | inl bad ↦ simp bad (ground arith)
        | inr ok ↦ simp ok (ground arith)
      ]

  success_patch :
      (payload : TenantUpdateRequest) (o : Option Tenant)
      → (outcome (updated tools by payload o p)).1
        ≡ (storable by.correlation_id && fits payload p.tenants o)
  unfolding updated begin set_rls_context audited json_safe safe_value fields_serializable
      serializable patched
  success_patch payload none = ground arith
  success_patch payload (some t) = ground (arith, fields_serializable-changes payload)

  success_issue :
      (id name : String) (now : ℕ) (key_id secret_part : List ℕ) (o : Option Tenant)
      → (outcome (issued tools by name now (key_id, secret_part) o p)).1
        ≡ (storable by.correlation_id && given o && not (key_taken key_id p.api_keys))
  unfolding issued begin set_rls_context audited fields_serializable serializable
  success_issue id name now key_id secret_part none = ground arith
  success_issue id name now key_id secret_part (some t) = ground arith

  success_revoke :
      (id : String) (key_id : List ℕ) (now : ℕ) (o : Option ApiKey)
      → (outcome (revoked tools by id key_id now o p)).1 ≡ revocable by o
  unfolding revoked begin set_rls_context audited fields_serializable serializable
  success_revoke id key_id now none = refl
  success_revoke id key_id now (some k) = ground arith

  -- A request succeeds exactly under its condition. To create a tenant its id and its name must be
  -- free. A PATCH wants the tenant, no null, a name that no other tenant has, and no value for the
  -- monthly budget. To issue a key there must be the tenant, and the key id must be free. To
  -- revoke one the tenant must have a key with that id. And each of them wants a correlation id of at
  -- most 64 characters, but for the revocation of a key that is revoked already.
  pub handle_succeeds : (r : Request) → (handle tools (by, r) p).1 ≡ permitted by p r
  unfolding handle update_tenant create_api_key revoke_api_key begin
  handle_succeeds (create id now payload) = success_create id now payload
  handle_succeeds (patch id payload) = success_patch payload (find_tenant id p.tenants)
  handle_succeeds (issue id name now (key_id, secret_part)) =
      success_issue id name now key_id secret_part (find_tenant id p.tenants)
  handle_succeeds (revoke id key_id now) =
      success_revoke id key_id now (find_own_key id key_id p.api_keys)
