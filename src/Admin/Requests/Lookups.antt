-- ===== src/Admin/Requests/Lookups.antt =====
-- Lookups after the changes that the admin API makes to its lists.
use aegis_gateway.Prelude.{
  ℕ, String, true, false, none, some, List, [], ◌∷◌, ◌≟◌, ◌≡◌, refl, arith, eq_iff, if◌then◌else◌,
}
use aegis_gateway.CodePoints.{same}
use aegis_gateway.Authentication.{ApiKey, Tenant}
use aegis_gateway.Admin.{find_tenant}
use aegis_gateway.Admin.Tenants.{replace_tenant}
use aegis_gateway.Admin.Keys.{key_taken, find_own_key, set_revoked}
use aegis_gateway.Admin.Requests.{distinct_keys, lookup_key, mapped}

pub same→≡ : (a b : List ℕ) → same a b ≡ true → a ≡ b
unfolding same
same→≡ [] [] h = refl
same→≡ [] (y ∷ b) h = ground arith
same→≡ (x ∷ a) [] h = ground arith
same→≡ (x ∷ a) (y ∷ b) h = grind (arith, same→≡ a b)

pub same_refl : (a : List ℕ) → same a a ≡ true
unfolding same
same_refl [] = refl
same_refl (x ∷ a) = grind (arith, same_refl a)

-- A tenant that is found has the id.
pub id-find_tenant :
    (id : String) (tenants : List Tenant) (t : Tenant)
    → find_tenant id tenants ≡ some t
    → t.settings.tenant_id ≡ id
unfolding find_tenant
id-find_tenant id [] t h = ground arith
id-find_tenant id (u ∷ tenants) t h =
    ground (arith, eq_iff u.settings.tenant_id id, id-find_tenant id tenants t)

-- A replaced row is found under its own id, if there was one; the others are as before.
pub find_tenant-replace_tenant :
    (id : String) (t : Tenant) (tenants : List Tenant)
    → find_tenant id (replace_tenant t tenants) ≡ (
        if t.settings.tenant_id ≟ id
        then mapped (λ _. t) (find_tenant id tenants)
        else find_tenant id tenants)
unfolding find_tenant replace_tenant
find_tenant-replace_tenant id t [] = ground arith
find_tenant-replace_tenant id t (u ∷ tenants) = ground (
  arith,
  eq_iff u.settings.tenant_id t.settings.tenant_id,
  eq_iff u.settings.tenant_id id,
  eq_iff t.settings.tenant_id id,
  find_tenant-replace_tenant id t tenants,
)

pub lookup_key-set_revoked :
    (now : ℕ) (key_id i : List ℕ) (keys : List ApiKey)
    → lookup_key i (set_revoked now key_id keys) ≡ (
        if same key_id i
        then mapped (λ (k : ApiKey). record k { revoked_at = some now }) (lookup_key i keys)
        else lookup_key i keys)
unfolding lookup_key set_revoked
lookup_key-set_revoked now key_id i [] = ground arith
lookup_key-set_revoked now key_id i (k ∷ keys) = ground (
  arith,
  lookup_key-set_revoked now key_id i keys,
  same→≡ k.key_id i,
  same→≡ key_id i,
  same→≡ k.key_id key_id,
  same_refl i,
)

pub lookup_key-key_taken :
    (key_id : List ℕ) (keys : List ApiKey)
    → key_taken key_id keys ≡ false
    → lookup_key key_id keys ≡ none
unfolding lookup_key key_taken
lookup_key-key_taken key_id [] h = refl
lookup_key-key_taken key_id (k ∷ keys) h = ground (arith, lookup_key-key_taken key_id keys)

-- A tenant's own key is the key with that id, if no two rows share an id.
pub lookup_key-find_own_key :
    (tenant_id : String) (key_id : List ℕ) (keys : List ApiKey) (k : ApiKey)
    → distinct_keys keys ≡ true
    → find_own_key tenant_id key_id keys ≡ some k
    → (lookup_key key_id keys ≡ some k) × (k.tenant_id ≡ tenant_id) × (k.key_id ≡ key_id)
unfolding lookup_key find_own_key distinct_keys
lookup_key-find_own_key tenant_id key_id [] k d h = ground arith
lookup_key-find_own_key tenant_id key_id (j ∷ keys) k d h = grind (
  arith,
  eq_iff j.tenant_id tenant_id,
  same→≡ j.key_id key_id,
  lookup_key-key_taken j.key_id keys,
  lookup_key-find_own_key tenant_id key_id keys k,
)
