-- ===== src/Admin/Requests/Refinement.antt =====
-- The two tables that the admin API changes behave as two maps.
use aegis_gateway.Prelude.{
  ℕ, String, Bool, true, none, some, List, [], ◌∷◌, ◌≟◌, ◌≡◌, refl, arith, eq_iff, if◌then◌else◌,
  ap, ◌∙◌,
}
use mathlib.Core.Path.{fun_ext}
use aegis_gateway.CodePoints.{same}
use aegis_gateway.Authentication.{ApiKey, Tenant}
use aegis_gateway.Admin.{Plane, Tools, By, find_tenant, close}
use aegis_gateway.Admin.Tenants.{TenantUpdateRequest, tenant_of, patched, replace_tenant}
use aegis_gateway.Admin.Keys.{new_key, key_taken, set_revoked}
use aegis_gateway.Admin.Requests.{
  Request, distinct_keys, lookup_key, view, mapped, revoke_at, effect,
}
use aegis_gateway.Admin.Requests.Lookups.{
  same→≡, id-find_tenant, find_tenant-replace_tenant, lookup_key-set_revoked,
  lookup_key-find_own_key,
}
use aegis_gateway.Admin.Requests.Steps.{
  Step, failed, created, changed, issued_to, revoked_now, revoked_before,
}

key_taken-set_revoked :
    (now : ℕ) (key_id i : List ℕ) (keys : List ApiKey)
    → key_taken i (set_revoked now key_id keys) ≡ key_taken i keys
unfolding key_taken set_revoked
key_taken-set_revoked now key_id i [] = refl
key_taken-set_revoked now key_id i (k ∷ keys) =
    ground (arith, key_taken-set_revoked now key_id i keys)

pub distinct_keys-set_revoked :
    (now : ℕ) (key_id : List ℕ) (keys : List ApiKey)
    → distinct_keys (set_revoked now key_id keys) ≡ distinct_keys keys
unfolding distinct_keys set_revoked
distinct_keys-set_revoked now key_id [] = refl
distinct_keys-set_revoked now key_id (k ∷ keys) = ground (
  arith,
  distinct_keys-set_revoked now key_id keys,
  key_taken-set_revoked now key_id k.key_id keys,
)

tenants_changed :
    (id : String) (payload : TenantUpdateRequest) (t : Tenant) (tenants : List Tenant)
    → find_tenant id tenants ≡ some t
    → (i : String)
    → find_tenant i (replace_tenant (patched payload t) tenants)
      ≡ (if id ≟ i then mapped (patched payload) (find_tenant i tenants) else find_tenant i tenants)
unfolding patched
tenants_changed id payload t tenants e i = ground (
  arith,
  find_tenant-replace_tenant i (patched payload t) tenants,
  id-find_tenant id tenants t,
  eq_iff id i,
  eq_iff t.settings.tenant_id i,
)

keys_revoked :
    (key_id : List ℕ) (now : ℕ) (k : ApiKey) (keys : List ApiKey)
    → lookup_key key_id keys ≡ some k
    → k.revoked_at ≡ none
    → (i : List ℕ)
    → lookup_key i (set_revoked now key_id keys)
      ≡ (if same key_id i then mapped (revoke_at now) (lookup_key i keys) else lookup_key i keys)
keys_revoked key_id now k keys e valid i =
    grind (arith, lookup_key-set_revoked now key_id i keys, same→≡ key_id i)

keys_kept :
    (key_id : List ℕ) (now at : ℕ) (k : ApiKey) (keys : List ApiKey)
    → lookup_key key_id keys ≡ some k
    → k.revoked_at ≡ some at
    → (i : List ℕ)
    → lookup_key i keys
      ≡ (if same key_id i then mapped (revoke_at now) (lookup_key i keys) else lookup_key i keys)
keys_kept key_id now at k keys e before i = grind (arith, same→≡ key_id i)

module _ (tools : Tools) where
  pub step_refines :
      (by : By) (p : Plane) (r : Request) (q : Plane × Bool)
      → distinct_keys p.api_keys ≡ true
      → Step tools by p r q
      → (distinct_keys q.0.api_keys ≡ true)
        × (view q.0 ≡ (if q.1 then effect tools r (view p) else view p))
  unfolding close find_tenant lookup_key distinct_keys new_key tenant_of
  step_refines by p _ _ d (failed r) = (d, refl)
  step_refines by p _ _ d (created id now payload event named a b) = (d, refl)
  step_refines by p _ _ d (changed id payload t event named e free) = (
    d,
    ap (λ f. record (view p) { tenant = f }) (fun_ext (tenants_changed id payload t p.tenants e)),
  )
  step_refines by p _ _ d (issued_to id name now key_id secret_part t event named e free) = (
    ground arith,
    ap
        (λ u. record (view p) {
          key = λ i.
              if same key_id i
              then some (new_key tools u name now (key_id, secret_part))
              else lookup_key i p.api_keys;
        })
        (id-find_tenant id p.tenants t e),
  )
  step_refines by p _ _ d (revoked_now id key_id now k event named e valid) = (
    distinct_keys-set_revoked now key_id p.api_keys ∙ d,
    ap (λ f. record (view p) { key = f })
        (fun_ext (
          keys_revoked key_id now k p.api_keys
            (lookup_key-find_own_key id key_id p.api_keys k d e).0 valid)),
  )
  step_refines by p _ _ d (revoked_before id key_id now k at e before) = (
    d,
    ap (λ f. record (view p) { key = f })
        (fun_ext (
          keys_kept key_id now at k p.api_keys
            (lookup_key-find_own_key id key_id p.api_keys k d e).0 before)),
  )
