-- ===== src/Admin/Requests/Invariant.antt =====
-- The constraints of the tables of alembic/versions/0001, which every request keeps, and the audit trail.
use aegis_gateway.Prelude.{
  ℕ, String, Bool, true, false, ◌&&◌, ◌||◌, not, some, List, [], ◌∷◌, ◌≟◌, ◌≡◌, refl, arith, ◌∙◌,
  eq_iff,
}
use aegis_gateway.Authentication.{ApiKey, Tenant}
use aegis_gateway.Admin.{Plane, Tools, By, find_tenant, close}
use aegis_gateway.Admin.Tenants.{tenant_of, patched, id_taken, name_taken, replace_tenant}
use aegis_gateway.Admin.Keys.{set_revoked, new_key}
use aegis_gateway.Admin.Requests.{Request, handle, run, distinct_keys}
use aegis_gateway.Admin.Requests.Refinement.{distinct_keys-set_revoked}
use aegis_gateway.Admin.Requests.Steps.{
  Step, failed, created, changed, issued_to, revoked_now, revoked_before, handle-Step,
}

-- A tenant has the name.
unfoldable pub has_name : String → List Tenant → Bool
has_name name [] = false
has_name name (t ∷ tenants) = (t.settings.tenant_name ≟ name) || has_name name tenants

unfoldable pub distinct_ids : List Tenant → Bool
distinct_ids [] = true
distinct_ids (t ∷ tenants) = not (id_taken t.settings.tenant_id tenants) && distinct_ids tenants

unfoldable pub distinct_names : List Tenant → Bool
distinct_names [] = true
distinct_names (t ∷ tenants) =
    not (has_name t.settings.tenant_name tenants) && distinct_names tenants

-- The foreign key of a key to its tenant.
unfoldable pub owned : List Tenant → List ApiKey → Bool
owned tenants [] = true
owned tenants (k ∷ keys) = id_taken k.tenant_id tenants && owned tenants keys

pub record IsValid (p : Plane) : Type 0 where
  pub ids : distinct_ids p.tenants ≡ true
  pub names : distinct_names p.tenants ≡ true
  pub keys : distinct_keys p.api_keys ≡ true
  pub owners : owned p.tenants p.api_keys ≡ true

-- A free name that is not the name of another tenant is no tenant's name.
has_name-name_taken :
    (id name : String) (tenants : List Tenant)
    → id_taken id tenants ≡ false
    → name_taken id name tenants ≡ false
    → has_name name tenants ≡ false
unfolding has_name id_taken name_taken
has_name-name_taken id name [] a b = refl
has_name-name_taken id name (t ∷ tenants) a b = ground (arith, has_name-name_taken id name tenants)

replace_tenant_id :
    (t : Tenant) (i : String) (tenants : List Tenant)
    → id_taken i (replace_tenant t tenants) ≡ id_taken i tenants
unfolding id_taken replace_tenant
replace_tenant_id t i [] = refl
replace_tenant_id t i (u ∷ tenants) =
    ground (arith, replace_tenant_id t i tenants, eq_iff u.settings.tenant_id t.settings.tenant_id)

distinct_ids-replace_tenant :
    (t : Tenant) (tenants : List Tenant)
    → distinct_ids (replace_tenant t tenants) ≡ distinct_ids tenants
unfolding distinct_ids replace_tenant
distinct_ids-replace_tenant t [] = refl
distinct_ids-replace_tenant t (u ∷ tenants) = ground (
  arith,
  distinct_ids-replace_tenant t tenants,
  replace_tenant_id t u.settings.tenant_id tenants,
  replace_tenant_id t t.settings.tenant_id tenants,
  eq_iff u.settings.tenant_id t.settings.tenant_id,
)

-- Another name than the new one is a name after the change only if it was one before.
has_name-replace_tenant :
    (t : Tenant) (name : String) (tenants : List Tenant)
    → (t.settings.tenant_name ≟ name) ≡ false
    → has_name name tenants ≡ false
    → has_name name (replace_tenant t tenants) ≡ false
unfolding has_name replace_tenant
has_name-replace_tenant t name [] a b = refl
has_name-replace_tenant t name (u ∷ tenants) a b =
    ground (arith, has_name-replace_tenant t name tenants)

replace_tenant_absent :
    (t : Tenant) (tenants : List Tenant)
    → id_taken t.settings.tenant_id tenants ≡ false
    → replace_tenant t tenants ≡ tenants
unfolding id_taken replace_tenant
replace_tenant_absent t [] a = refl
replace_tenant_absent t (u ∷ tenants) a = ground (arith, replace_tenant_absent t tenants)

distinct_names-replace_tenant :
    (t : Tenant) (tenants : List Tenant)
    → distinct_ids tenants ≡ true
    → distinct_names tenants ≡ true
    → name_taken t.settings.tenant_id t.settings.tenant_name tenants ≡ false
    → distinct_names (replace_tenant t tenants) ≡ true
unfolding distinct_ids distinct_names replace_tenant name_taken
distinct_names-replace_tenant t [] i n f = refl
distinct_names-replace_tenant t (u ∷ tenants) i n f = grind (
  arith,
  distinct_names-replace_tenant t tenants,
  eq_iff u.settings.tenant_id t.settings.tenant_id,
  eq_iff t.settings.tenant_name u.settings.tenant_name,
  eq_iff u.settings.tenant_name t.settings.tenant_name,
  has_name-replace_tenant t u.settings.tenant_name tenants,
  replace_tenant_absent t tenants,
  has_name-name_taken t.settings.tenant_id t.settings.tenant_name tenants,
)

owned-more :
    (t : Tenant) (tenants : List Tenant) (keys : List ApiKey)
    → owned tenants keys ≡ true
    → owned (t ∷ tenants) keys ≡ true
unfolding owned id_taken
owned-more t tenants [] h = refl
owned-more t tenants (k ∷ keys) h = ground (arith, owned-more t tenants keys)

owned-replace_tenant :
    (t : Tenant) (tenants : List Tenant) (keys : List ApiKey)
    → owned (replace_tenant t tenants) keys ≡ owned tenants keys
unfolding owned
owned-replace_tenant t tenants [] = refl
owned-replace_tenant t tenants (k ∷ keys) =
    ground (arith, owned-replace_tenant t tenants keys, replace_tenant_id t k.tenant_id tenants)

owned-set_revoked :
    (now : ℕ) (key_id : List ℕ) (tenants : List Tenant) (keys : List ApiKey)
    → owned tenants (set_revoked now key_id keys) ≡ owned tenants keys
unfolding owned set_revoked
owned-set_revoked now key_id tenants [] = refl
owned-set_revoked now key_id tenants (k ∷ keys) =
    ground (arith, owned-set_revoked now key_id tenants keys)

id_taken-find_tenant :
    (id : String) (tenants : List Tenant) (t : Tenant)
    → find_tenant id tenants ≡ some t
    → id_taken t.settings.tenant_id tenants ≡ true
unfolding id_taken find_tenant
id_taken-find_tenant id [] t h = ground arith
id_taken-find_tenant id (u ∷ tenants) t h =
    grind
      (arith, id_taken-find_tenant id tenants t, eq_iff u.settings.tenant_id t.settings.tenant_id)

closed-IsValid : (p : Plane) → IsValid p → IsValid (close p)
unfolding close
closed-IsValid p v = record { ids = v.ids; names = v.names; keys = v.keys; owners = v.owners }

module _ (tools : Tools) where
  pub step-IsValid :
      (by : By) (p : Plane) (r : Request) (q : Plane × Bool)
      → IsValid p
      → Step tools by p r q
      → IsValid q.0
  unfolding distinct_ids distinct_names distinct_keys tenant_of owned new_key patched
  step-IsValid by p _ _ v (failed r) = closed-IsValid p v
  step-IsValid by p _ _ v (created id now payload event named a b) = record {
    ids = simp (a, v.ids);
    names = simp (has_name-name_taken id payload.name p.tenants a b, v.names);
    keys = v.keys;
    owners = owned-more _ p.tenants p.api_keys v.owners;
  }
  step-IsValid by p _ _ v (changed id payload t event named e free) = record {
    ids = distinct_ids-replace_tenant _ p.tenants ∙ v.ids;
    names = distinct_names-replace_tenant (patched payload t) p.tenants v.ids v.names free;
    keys = v.keys;
    owners = owned-replace_tenant _ p.tenants p.api_keys ∙ v.owners;
  }
  step-IsValid by p _ _ v (issued_to id name now key_id secret_part t event named e free) = record {
    ids = v.ids;
    names = v.names;
    keys = simp (free, v.keys);
    owners = simp (id_taken-find_tenant id p.tenants t e, v.owners);
  }
  step-IsValid by p _ _ v (revoked_now id key_id now k event named e valid) = record {
    ids = v.ids;
    names = v.names;
    keys = distinct_keys-set_revoked now key_id p.api_keys ∙ v.keys;
    owners = owned-set_revoked now key_id p.tenants p.api_keys ∙ v.owners;
  }
  step-IsValid by p _ _ v (revoked_before id key_id now k at e before) = closed-IsValid p v

  -- Any sequence of requests keeps the tables consistent: distinct tenant ids, tenant names and
  -- key ids, and for every key a tenant that owns it.
  pub requests-IsValid :
      (requests : List (By × Request)) (p : Plane) → IsValid p → IsValid (run tools requests p)
  unfolding run
  requests-IsValid [] p v = v
  requests-IsValid ((by, r) ∷ requests) p v =
      requests-IsValid requests _
        (step-IsValid by p r (handle tools (by, r) p) v (handle-Step tools by p r))
