-- ===== src/Admin/Requests/Allowed.antt =====
-- The conditions of the requests, said of the two maps alone, and that the code decides them.
use aegis_gateway.Prelude.{
  ℕ, String, true, false, none, some, List, [], ◌∷◌, ◌≡◌, ◌≢◌, refl, ◌&&◌, ◌||◌, sym, arith, eq_iff,
  Option-cases, ◌∙◌, inl, inr,
}
use aegis_gateway.Authentication.{ApiKey, Tenant}
use aegis_gateway.Admin.{Plane, By, find_tenant}
use aegis_gateway.Database.{storable}
use aegis_gateway.Admin.Tenants.{changed, has_null, id_taken, name_taken}
use aegis_gateway.Admin.Keys.{key_taken, find_own_key}
use aegis_gateway.Admin.Requests.{Request, create, patch, issue, revoke, Registry, view, lookup_key}
use aegis_gateway.Admin.Requests.Lookups.{
  id-find_tenant, lookup_key-key_taken, lookup_key-find_own_key,
}
use aegis_gateway.Admin.Requests.Success.{is_set, fits, given, revocable, permitted}
use aegis_gateway.Admin.Requests.Invariant.{distinct_ids, IsValid}

-- A new tenant's id and name are new; a change wants the tenant, no null, no budget, and no other tenant of the
-- new name; a key wants its tenant and a new key id; a revocation wants a key of that tenant. The
-- request's correlation id fits its column, but where nothing is recorded.
abbrev pub Allowed : By → Request → Registry → Type 0
Allowed by (create id now payload) r =
    (storable by.correlation_id ≡ true)
    × (r.tenant id ≡ none)
    × ((i : String) (t : Tenant) → r.tenant i ≡ some t → t.settings.tenant_name ≢ payload.name)
Allowed by (patch id payload) r =
    (storable by.correlation_id ≡ true)
    × (t : Tenant) × (r.tenant id ≡ some t)
    × (has_null payload ≡ false)
    × (is_set payload.monthly_budget_usd ≡ false)
    × ((i : String) (u : Tenant)
        → r.tenant i ≡ some u
        → u.settings.tenant_name ≡ changed payload.name t.settings.tenant_name
        → i ≡ id)
Allowed by (issue id name now (key_id, secret_part)) r =
    (storable by.correlation_id ≡ true)
    × ((t : Tenant) × (r.tenant id ≡ some t))
    × (r.key key_id ≡ none)
Allowed by (revoke id key_id now) r =
    (k : ApiKey) × (r.key key_id ≡ some k)
    × (k.tenant_id ≡ id)
    × ((storable by.correlation_id || given k.revoked_at) ≡ true)

find_tenant-id_taken :
    (id : String) (tenants : List Tenant)
    → id_taken id tenants ≡ false
    → find_tenant id tenants ≡ none
unfolding find_tenant id_taken
find_tenant-id_taken id [] h = refl
find_tenant-id_taken id (t ∷ tenants) h = ground (arith, find_tenant-id_taken id tenants)

id_taken-none :
    (id : String) (tenants : List Tenant)
    → find_tenant id tenants ≡ none
    → id_taken id tenants ≡ false
unfolding find_tenant id_taken
id_taken-none id [] h = refl
id_taken-none id (t ∷ tenants) h = ground (arith, id_taken-none id tenants)

key_taken-none :
    (key_id : List ℕ) (keys : List ApiKey)
    → lookup_key key_id keys ≡ none
    → key_taken key_id keys ≡ false
unfolding lookup_key key_taken
key_taken-none key_id [] h = refl
key_taken-none key_id (k ∷ keys) h = ground (arith, key_taken-none key_id keys)

-- A free name is nobody else's.
owner-name_taken :
    (id name : String) (tenants : List Tenant)
    → name_taken id name tenants ≡ false
    → (i : String) (t : Tenant) → find_tenant i tenants ≡ some t
    → t.settings.tenant_name ≡ name
    → i ≡ id
unfolding find_tenant name_taken
owner-name_taken id name [] h i t e n = ground arith
owner-name_taken id name (u ∷ tenants) h i t e n = grind (
  arith,
  owner-name_taken id name tenants,
  eq_iff u.settings.tenant_id i,
  eq_iff u.settings.tenant_id id,
  eq_iff u.settings.tenant_name name,
)

find_tenant-tail :
    (u : Tenant) (tenants : List Tenant) (i : String) (t : Tenant)
    → id_taken u.settings.tenant_id tenants ≡ false
    → find_tenant i tenants ≡ some t
    → find_tenant i (u ∷ tenants) ≡ some t
unfolding find_tenant
find_tenant-tail u tenants i t h e =
    grind
      (arith, eq_iff u.settings.tenant_id i, find_tenant-id_taken u.settings.tenant_id tenants h)

find_tenant-head :
    (t : Tenant) (tenants : List Tenant) → find_tenant t.settings.tenant_id (t ∷ tenants) ≡ some t
unfolding find_tenant
find_tenant-head t tenants = simp ((eq_iff t.settings.tenant_id t.settings.tenant_id).1 refl)

name_taken-free :
    (id name : String) (tenants : List Tenant)
    → distinct_ids tenants ≡ true
    → ((i : String) (t : Tenant)
        → find_tenant i tenants ≡ some t
        → t.settings.tenant_name ≡ name
        → i ≡ id)
    → name_taken id name tenants ≡ false
unfolding name_taken distinct_ids
name_taken-free id name [] d h = refl
name_taken-free id name (u ∷ tenants) d h =
    let fresh : id_taken u.settings.tenant_id tenants ≡ false = ground arith in
    let rest =
      name_taken-free id name tenants (ground arith)
        (λ i t e n. h i t (find_tenant-tail u tenants i t fresh e) n) in
    let first = h u.settings.tenant_id u (find_tenant-head u tenants) in
    grind (arith, rest, first, eq_iff u.settings.tenant_name name, eq_iff u.settings.tenant_id id)

find_own_key-lookup_key :
    (tenant_id : String) (key_id : List ℕ) (keys : List ApiKey) (k : ApiKey)
    → lookup_key key_id keys ≡ some k
    → k.tenant_id ≡ tenant_id
    → find_own_key tenant_id key_id keys ≡ some k
unfolding lookup_key find_own_key
find_own_key-lookup_key tenant_id key_id [] k h e = ground arith
find_own_key-lookup_key tenant_id key_id (j ∷ keys) k h e =
    grind (arith, find_own_key-lookup_key tenant_id key_id keys k, eq_iff j.tenant_id tenant_id)

module _ (by : By) (p : Plane) (v : IsValid p) where
  pub permitted-Allowed :
      (request : Request) → permitted by p request ≡ true → Allowed by request (view p)
  permitted-Allowed (create id now payload) h =
      let unknown = find_tenant-id_taken id p.tenants (ground arith) in
      let free : name_taken id payload.name p.tenants ≡ false = ground arith in
      (
        ground arith,
        unknown,
        λ i t e n.
            ground (arith, owner-name_taken id payload.name p.tenants free i t e n, e, unknown),
      )
  permitted-Allowed (patch id payload) h = elim (Option-cases (find_tenant id p.tenants)) [
    | inl missing ↦ absurd (ground (arith, missing, h))
    | inr (t, e) ↦
        let both : (storable by.correlation_id && fits payload p.tenants (some t)) ≡ true =
          simp e at h in
        let fitting : fits payload p.tenants (some t) ≡ true = ground arith in
        let own = id-find_tenant id p.tenants t e in
        let free : name_taken t.settings.tenant_id (changed payload.name t.settings.tenant_name)
              p.tenants
            ≡ false =
          ground arith in
        (
          ground arith,
          t,
          e,
          ground arith,
          ground arith,
          λ i u f n. owner-name_taken t.settings.tenant_id _ p.tenants free i u f n ∙ own,
        )
  ]
  permitted-Allowed (issue id name now (key_id, secret_part)) h =
      elim (Option-cases (find_tenant id p.tenants)) [
        | inl missing ↦ absurd (ground (arith, missing, h))
        | inr (t, e) ↦
            (ground arith, (t, e), ground (arith, lookup_key-key_taken key_id p.api_keys))
      ]
  permitted-Allowed (revoke id key_id now) h =
      elim (Option-cases (find_own_key id key_id p.api_keys)) [
        | inl missing ↦ absurd (ground (arith, missing, h))
        | inr (k, e) ↦
            let (found, own, same_id) = lookup_key-find_own_key id key_id p.api_keys k v.keys e in
            let noted : revocable by (some k) ≡ true = simp e at h in (k, found, own, noted)
      ]

  pub Allowed-permitted :
      (request : Request) → Allowed by request (view p) → permitted by p request ≡ true
  Allowed-permitted (create id now payload) (short, unknown, free) =
      let fresh = id_taken-none id p.tenants unknown in
      let open_name =
        name_taken-free id payload.name p.tenants v.ids (λ i t e n. absurd (free i t e n)) in
      simp (short, fresh, open_name)
  Allowed-permitted (patch id payload) (short, t, e, no_null, no_budget, free) =
      let own = id-find_tenant id p.tenants t e in
      let open_name =
        name_taken-free t.settings.tenant_id (changed payload.name t.settings.tenant_name) p.tenants
          v.ids (λ i u f n. free i u f n ∙ sym own) in
      simp (short, e, no_null, no_budget, open_name)
  Allowed-permitted (issue id name now (key_id, secret_part)) (short, (t, e), free) =
      simp (short, e, key_taken-none key_id p.api_keys free)
  Allowed-permitted (revoke id key_id now) (k, e, own, noted) =
      simp (find_own_key-lookup_key id key_id p.api_keys k e own) noted
