-- ===== src/Admin/Requests.antt =====
-- src/aegis_gateway/api/admin.py: a sequence of requests that change the accounts, one after the other, and
-- what each does to an abstract registry: two finite maps, from ids to tenants and from key ids to keys.
pub mod Lookups
pub mod Allowed
pub mod Steps
pub mod Refinement
pub mod Spec
pub mod Success
pub mod Invariant
pub mod Trail
use aegis_gateway.Prelude.{
  ℕ, String, Bool, true, false, ◌&&◌, not, Option, none, some, List, [], ◌∷◌, ◌≟◌, if◌then◌else◌,
}
use aegis_gateway.CodePoints.{same}
use aegis_gateway.Authentication.{ApiKey, Tenant}
use aegis_gateway.Admin.{Plane, Reply, done, not_found, crashed, Tools, By, find_tenant}
use aegis_gateway.Admin.Tenants.{
  TenantCreateRequest, TenantUpdateRequest, tenant_of, patched, create_tenant, update_tenant,
}
use aegis_gateway.Admin.Keys.{key_taken, new_key, create_api_key, revoke_api_key}

-- Ids, times and generated keys stand with the request that gets them.
pub data Request : Type 0 where
  create : String → ℕ → TenantCreateRequest → Request
  patch : String → TenantUpdateRequest → Request
  issue : String → String → ℕ → List ℕ × List ℕ → Request
  revoke : String → List ℕ → ℕ → Request

abbrev pub succeeded {ℓ} : {A : Type ℓ} → Reply A → Bool
succeeded (done a) = true
succeeded (not_found detail) = false
succeeded crashed = false

abbrev pub outcome {ℓ} : {A : Type ℓ} → Plane × Reply A → Plane × Bool
outcome (p, reply) = (p, succeeded reply)

-- The plane after a request, and whether its status is 2xx.
unfoldable pub handle : Tools → By × Request → Plane → Plane × Bool
handle tools (by, create id now payload) p = outcome (create_tenant tools by id now payload p)
handle tools (by, patch id payload) p = outcome (update_tenant tools by id payload p)
handle tools (by, issue id name now generated) p =
    outcome (create_api_key tools by id name now generated p)
handle tools (by, revoke id key_id now) p = outcome (revoke_api_key tools by id key_id now p)

unfoldable pub run : Tools → List (By × Request) → Plane → Plane
run tools [] p = p
run tools (r ∷ requests) p = run tools requests (handle tools r p).0

-- Which of the requests succeed.
unfoldable pub verdicts : Tools → List (By × Request) → Plane → List Bool
verdicts tools [] p = []
verdicts tools (r ∷ requests) p =
    (handle tools r p).1 ∷ verdicts tools requests (handle tools r p).0

-- No two rows have one key id: the unique constraint of the column.
unfoldable pub distinct_keys : List ApiKey → Bool
distinct_keys [] = true
distinct_keys (k ∷ keys) = not (key_taken k.key_id keys) && distinct_keys keys

-- The row with a key's id, of whatever tenant.
unfoldable pub lookup_key : List ℕ → List ApiKey → Option ApiKey
lookup_key key_id [] = none
lookup_key key_id (k ∷ keys) =
    let rest = lookup_key key_id keys in if same k.key_id key_id then some k else rest

pub record Registry : Type 0 where
  pub tenant : String → Option Tenant
  pub key : List ℕ → Option ApiKey

abbrev pub view : Plane → Registry
view p = record {
  tenant = λ id. find_tenant id p.tenants;
  key = λ key_id. lookup_key key_id p.api_keys;
}

abbrev pub mapped {ℓ} : {A : Type ℓ} → (A → A) → Option A → Option A
mapped f none = none
mapped f (some a) = some (f a)

-- The first revocation of a key stays.
abbrev pub revoke_at : ℕ → ApiKey → ApiKey
revoke_at now k = elim k.revoked_at [ some at ↦ k | none ↦ record k { revoked_at = some now } ]

-- The registry after a request that succeeded.
abbrev pub effect : Tools → Request → Registry → Registry
effect tools (create id now payload) r = record r {
  tenant = λ i. if id ≟ i then some (tenant_of id now payload) else r.tenant i;
}
effect tools (patch id payload) r = record r {
  tenant = λ i. if id ≟ i then mapped (patched payload) (r.tenant i) else r.tenant i;
}
effect tools (issue id name now (key_id, secret_part)) r = record r {
  key = λ i.
      if same key_id i then some (new_key tools id name now (key_id, secret_part)) else r.key i;
}
effect tools (revoke id key_id now) r = record r {
  key = λ i. if same key_id i then mapped (revoke_at now) (r.key i) else r.key i;
}
