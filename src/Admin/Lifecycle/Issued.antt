-- ===== src/Admin/Lifecycle/Issued.antt =====
-- A key that has been issued is accepted.
use aegis_gateway.Prelude.{
  ℕ, String, true, false, Option, none, some, List, ◌∷◌, ◌==◌, ◌≡◌, refl, sym, ◌∙◌, ap, eq_iff, All,
}
use mathlib.Core.List.{reverse, reverse-reverse}
use aegis_gateway.CodePoints.{lstrip, strip, remove_prefix, is_empty}
use aegis_gateway.Database.{set_rls_context, storable}
use aegis_gateway.Authentication.{
  ApiKey, Tenant, authenticated, presented, after_space, full_key, parse_api_key, admit,
  with_tenant, with_secret, with_key, with_parts, with_token, get_current_tenant,
}
use aegis_gateway.Authentication.Laws.{parse_api_key-full_key}
use aegis_gateway.Admin.{Plane, Reply, done, Tools, By, find_tenant, begin, audited}
use aegis_gateway.Json.{serializable, fields_serializable}
use aegis_gateway.Admin.Keys.{key_taken, new_key, ApiKeyCreatedResponse, issued, create_api_key}
use aegis_gateway.Admin.Requests.{lookup_key}
use aegis_gateway.Admin.Requests.Lookups.{same_refl, id-find_tenant}
use aegis_gateway.Admin.Lifecycle.{authenticate, bearer_header, Event, serve_all}
use aegis_gateway.Admin.Lifecycle.Live.{Spares, IsLive, row_of, serve_all-IsLive}
use aegis_gateway.Admin.Lifecycle.Revoked.{find_key-lookup_key, without_use}

pub presented-bearer_header :
    (key : List ℕ)
    → lstrip key ≡ key
    → lstrip (reverse key) ≡ reverse key
    → presented (bearer_header key) ≡ some key
unfolding presented remove_prefix after_space strip
presented-bearer_header key h g = rw h (rw g (ap some (reverse-reverse key)))

pub lstrip-full_key :
    (key_id secret_part : List ℕ)
    → lstrip (full_key key_id secret_part) ≡ full_key key_id secret_part
unfolding lstrip full_key
lstrip-full_key key_id secret_part = refl

pub lookup_key-first : (k : ApiKey) (keys : List ApiKey) → lookup_key k.key_id (k ∷ keys) ≡ some k
unfolding lookup_key
lookup_key-first k keys = simp (same_refl k.key_id)

module _ (tools : Tools) (now : ℕ) (correlation_id : Option String) (p : Plane) where
  -- The conditions under which a key is accepted.
  pub authenticate-valid :
      (auth_header key key_id secret_part : List ℕ) (k : ApiKey) (t : Tenant)
      → presented auth_header ≡ some key
      → parse_api_key key ≡ some (key_id, secret_part)
      → lookup_key key_id p.api_keys ≡ some k
      → k.revoked_at ≡ none
      → k.hashed_secret ≡ tools.hash_api_key_secret secret_part
      → find_tenant k.tenant_id p.tenants ≡ some t
      → t.is_active ≡ true
      → (authenticate tools now correlation_id auth_header p).1
        ≡ authenticated (record t.settings { api_key_id = tools.print_key_id k.key_id })
  unfolding authenticate get_current_tenant with_token with_parts with_key with_secret with_tenant
      admit
  authenticate-valid auth_header key key_id secret_part k t e f row valid digest owner active =
      let found = find_key-lookup_key key_id none p.db p.api_keys ∙ row in
      let same_digest =
        (eq_iff (tools.hash_api_key_secret secret_part) k.hashed_secret).1 (sym digest) in
      simp (e, f, found, valid, same_digest, owner, active)

-- What `generate_api_key` gives: an id without a dot, and a secret that is not empty and does not end in a space.
pub record IsGenerated (key_id secret_part : List ℕ) : Type 0 where
  pub no_dot : All (λ c. (c == b'.') ≡ false) key_id
  pub id_given : is_empty key_id ≡ false
  pub secret_given : is_empty secret_part ≡ false
  pub trimmed :
      lstrip (reverse (full_key key_id secret_part)) ≡ reverse (full_key key_id secret_part)

-- The key that `create_api_key` shows opens the proxy for the tenant, also after any requests to either
-- interface that neither revoke it nor change the tenant.
pub record Opens (tools : Tools) (t : Tenant) (key_id : List ℕ)
    (r : Plane × Reply ApiKeyCreatedResponse) : Type 0 where
  pub response : ApiKeyCreatedResponse
  pub answered : r.1 ≡ done response
  pub accepted :
      (events : List Event) (now : ℕ) (correlation_id : Option String)
      → All (Spares t.settings.tenant_id key_id) events
      → (authenticate tools now correlation_id
          (bearer_header response.api_key)
          (serve_all tools events r.0)).1
        ≡ authenticated (record t.settings { api_key_id = tools.print_key_id key_id })

-- A live key is accepted.
authenticate-IsLive :
    (tools : Tools) (now : ℕ) (correlation_id : Option String)
    (auth_header key secret_part : List ℕ) (k : ApiKey) (t : Tenant) (p : Plane)
    → IsLive k t p
    → presented auth_header ≡ some key
    → parse_api_key key ≡ some (k.key_id, secret_part)
    → k.revoked_at ≡ none
    → k.hashed_secret ≡ tools.hash_api_key_secret secret_part
    → k.tenant_id ≡ t.settings.tenant_id
    → t.is_active ≡ true
    → (authenticate tools now correlation_id auth_header p).1
      ≡ authenticated (record t.settings { api_key_id = tools.print_key_id k.key_id })
authenticate-IsLive tools now correlation_id auth_header key secret_part k t p live e f valid digest
      owner active =
    let (j, row, same_id, same_time, same_digest, same_tenant) =
      row_of k (lookup_key k.key_id p.api_keys) live.0 in
    authenticate-valid tools now correlation_id p auth_header key k.key_id secret_part j t e f row
      (same_time ∙ valid) (same_digest ∙ digest)
      (ap (λ i. find_tenant i p.tenants) (same_tenant ∙ owner) ∙ live.1) active
    ∙ ap (λ i. authenticated (record t.settings { api_key_id = tools.print_key_id i })) same_id

-- For a tenant that is found and active, and a generated key whose id is free, `create_api_key`
-- answers with a key, and a request behind it that presents this key as a bearer token is
-- authenticated, with the settings of the tenant, as long as the key is not revoked and the tenant
-- not changed.
pub create_api_key-Opens :
    (tools : Tools) (by : By) (id name : String) (now : ℕ) (key_id secret_part : List ℕ) (p : Plane)
    (t : Tenant)
    → IsGenerated key_id secret_part
    → key_taken key_id p.api_keys ≡ false
    → find_tenant id p.tenants ≡ some t
    → t.is_active ≡ true
    → storable by.correlation_id ≡ true
    → Opens tools t key_id (create_api_key tools by id name now (key_id, secret_part) p)
unfolding create_api_key issued audited begin set_rls_context fields_serializable serializable
    new_key
create_api_key-Opens tools by id name now key_id secret_part p t g free e active short =
    let owner = id-find_tenant id p.tenants t e in
    let k = new_key tools t.settings.tenant_id name now (key_id, secret_part) in
    simp (e, free, short)
      (record {
        response = _;
        answered = refl;
        accepted = λ events later correlation_id spared.
            let q : Plane = _ in
            authenticate-IsLive tools later correlation_id
              (bearer_header (full_key key_id secret_part)) (full_key key_id secret_part)
              secret_part k t (serve_all tools events q)
              (serve_all-IsLive tools k t events q spared (
                ap without_use (lookup_key-first k p.api_keys),
                ap (λ i. find_tenant i p.tenants) owner ∙ e,
              ))
              (presented-bearer_header (full_key key_id secret_part)
                (lstrip-full_key key_id secret_part) g.trimmed)
              (parse_api_key-full_key key_id secret_part g.no_dot g.id_given g.secret_given) refl
              refl refl active;
      })
