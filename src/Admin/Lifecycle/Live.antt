-- ===== src/Admin/Lifecycle/Live.antt =====
-- A key and its tenant stay as they are while no request revokes the one or changes the other.
use aegis_gateway.Prelude.{
  ℕ, String, Bool, false, Option, none, some, List, [], ◌∷◌, ◌≟◌, ◌≡◌, refl, ◌∙◌, ap, arith, All,
  eq_iff,
}
use aegis_gateway.CodePoints.{same}
use aegis_gateway.Authentication.{ApiKey, Tenant}
use aegis_gateway.Admin.{Plane, Tools, find_tenant, By, close}
use aegis_gateway.Admin.Tenants.{id_taken, patched, tenant_of}
use aegis_gateway.Admin.Keys.{new_key}
use aegis_gateway.Admin.Requests.{Request, patch, revoke, handle, lookup_key}
use aegis_gateway.Admin.Requests.Lookups.{
  same→≡, id-find_tenant, find_tenant-replace_tenant, lookup_key-key_taken, lookup_key-set_revoked,
}
use aegis_gateway.Admin.Requests.Steps.{
  Step, failed, created, changed, issued_to, revoked_now, revoked_before, handle-Step,
}
use aegis_gateway.Admin.Lifecycle.{Event, administer, arrive, authenticate, serve, serve_all}
use aegis_gateway.Admin.Lifecycle.Revoked.{without_use, authenticate_keeps}

-- The event neither revokes the key nor changes the tenant.
abbrev pub Spares : String → List ℕ → Event → Type 0
Spares tenant_id key_id (administer by (patch id payload)) = (id ≟ tenant_id) ≡ false
Spares tenant_id key_id (administer by (revoke id revoked_id now)) = same revoked_id key_id ≡ false
Spares tenant_id key_id _ = Unit

-- The key is in the table, but for the time of its last use, and so is the tenant.
abbrev pub IsLive : ApiKey → Tenant → Plane → Type 0
IsLive k t p =
    (without_use (lookup_key k.key_id p.api_keys) ≡ some k)
    × (find_tenant t.settings.tenant_id p.tenants ≡ some t)

find_tenant-id_taken :
    (id : String) (tenants : List Tenant)
    → id_taken id tenants ≡ false
    → find_tenant id tenants ≡ none
unfolding find_tenant id_taken
find_tenant-id_taken id [] h = refl
find_tenant-id_taken id (t ∷ tenants) h = ground (arith, find_tenant-id_taken id tenants)

module _ (tools : Tools) (by : By) (k : ApiKey) (t : Tenant) (p : Plane) where
  step-IsLive :
      (r : Request) (q : Plane × Bool)
      → Step tools by p r q
      → Spares t.settings.tenant_id k.key_id (administer by r)
      → IsLive k t p
      → IsLive k t q.0
  unfolding close lookup_key new_key find_tenant tenant_of patched
  step-IsLive _ _ (failed r) spared h = h
  step-IsLive _ _ (created id now payload event named a b) spared h =
      (h.0, grind (arith, find_tenant-id_taken id p.tenants a, eq_iff id t.settings.tenant_id))
  step-IsLive _ _ (changed id payload u event named e free) spared h = (
    h.0,
    grind (
      arith,
      id-find_tenant id p.tenants u e,
      find_tenant-replace_tenant t.settings.tenant_id (patched payload u) p.tenants,
    ),
  )
  step-IsLive _ _ (issued_to id name now key_id secret_part u event named e free) spared h =
      (grind (arith, same→≡ key_id k.key_id, lookup_key-key_taken key_id p.api_keys free), h.1)
  step-IsLive _ _ (revoked_now id key_id now j event named e valid) spared h =
      (grind (arith, lookup_key-set_revoked now key_id k.key_id p.api_keys), h.1)
  step-IsLive _ _ (revoked_before id key_id now j at e before) spared h = h

pub serve_all-IsLive :
    (tools : Tools) (k : ApiKey) (t : Tenant) (events : List Event) (p : Plane)
    → All (Spares t.settings.tenant_id k.key_id) events
    → IsLive k t p
    → IsLive k t (serve_all tools events p)
unfolding serve_all serve authenticate
serve_all-IsLive tools k t [] p spared h = h
serve_all-IsLive tools k t (administer by request ∷ events) p (spared, later) h =
    serve_all-IsLive tools k t events _ later (
      step-IsLive tools by k t p request (handle tools (by, request) p)
        (handle-Step tools by p request) spared h)
serve_all-IsLive tools k t (arrive now correlation_id auth_header ∷ events) p (spared, later) h =
    serve_all-IsLive tools k t events _ later
      (authenticate_keeps tools now correlation_id auth_header k.key_id p ∙ h.0, h.1)

-- The row of a live key.
pub row_of :
    (k : ApiKey) (o : Option ApiKey)
    → without_use o ≡ some k
    → (j : ApiKey) × (o ≡ some j)
      × (j.key_id ≡ k.key_id)
      × (j.revoked_at ≡ k.revoked_at)
      × (j.hashed_secret ≡ k.hashed_secret)
      × (j.tenant_id ≡ k.tenant_id)
row_of k none h = absurd (ground arith)
row_of k (some j) h =
    let same_key : record j { last_used_at = none } ≡ k = cc h in
    (
      j,
      refl,
      ap (λ (x : ApiKey). x.key_id) same_key,
      ap (λ (x : ApiKey). x.revoked_at) same_key,
      ap (λ (x : ApiKey). x.hashed_secret) same_key,
      ap (λ (x : ApiKey). x.tenant_id) same_key,
    )
