-- ===== src/Seed/Laws.antt =====
-- What a seeded database lets in.
use aegis_gateway.Prelude.{ℕ, String, false, Option, some, List, ◌∷◌, ◌≡◌, refl, eq_iff}
use aegis_gateway.Authentication.{authenticated, full_key}
use aegis_gateway.Authentication.Laws.{parse_api_key-full_key}
use aegis_gateway.Database.{Db}
use aegis_gateway.Admin.{Plane, Tools, find_tenant}
use aegis_gateway.Authentication.{Tenant}
use aegis_gateway.Admin.Tenants.{id_taken, name_taken}
use aegis_gateway.Admin.Keys.{key_taken, new_key}
use aegis_gateway.Admin.Lifecycle.{authenticate, bearer_header}
use aegis_gateway.Admin.Lifecycle.Issued.{
  IsGenerated, authenticate-valid, lookup_key-first, lstrip-full_key, presented-bearer_header,
}
use aegis_gateway.Admin.Login.{
  AdminUser, Libraries, Settings, matches, claims_of, find_email, find_admin, login,
}
use aegis_gateway.Admin.Login.Sessions.{IsJwt, IsSession, login-IsSession}
use aegis_gateway.Seed.{account_taken, default_tenant, Drawn, seed_admin, seed}

find_tenant-first :
    (t : Tenant) (tenants : List Tenant) → find_tenant t.settings.tenant_id (t ∷ tenants) ≡ some t
unfolding find_tenant
find_tenant-first t tenants = simp ((eq_iff t.settings.tenant_id t.settings.tenant_id).1 refl)

find_email-first :
    (a : AdminUser) (admins : List AdminUser) → find_email a.email (a ∷ admins) ≡ some a
unfolding find_email
find_email-first a admins = simp ((eq_iff a.email a.email).1 refl)

find_admin-first : (a : AdminUser) (admins : List AdminUser) → find_admin a.id (a ∷ admins) ≡ some a
unfolding find_admin
find_admin-first a admins = simp ((eq_iff a.id a.id).1 refl)

module _ (tools : Tools) (libraries : Libraries) (settings : Settings)
    (hash_password : String → String) (d : Drawn) (tenant_name admin_email admin_password : String)
    (p : Plane) (admins : List AdminUser) where
  abbrev pub admin : AdminUser
  admin = seed_admin hash_password d.admin_id admin_email admin_password

  -- The seed succeeds; then its key opens the proxy, and its password the admin API.
  pub record IsSeeded (issued : ℕ) (db : Db) (r : Option (Plane × List AdminUser)) : Type 0 where
    pub after : Plane × List AdminUser
    pub seeded : r ≡ some after
    pub key_accepted :
        (now : ℕ) (correlation_id : Option String)
        → (authenticate tools now correlation_id
            (bearer_header (full_key d.key_id d.secret_part))
            after.0).1
          ≡ authenticated (record (default_tenant d.tenant_id d.now tenant_name).settings {
            api_key_id = tools.print_key_id d.key_id;
          })
    pub admin_accepted :
        (correlation_id : Option String)
        → IsSession libraries settings after.1 correlation_id admin issued db
            (login libraries settings after.1 correlation_id admin_email admin_password issued db)

  -- If the ids, the tenant's name and the email are free and the key is well generated, seeding
  -- succeeds. Then the printed key authenticates against the new tables, with the default settings
  -- of the tenant, and a login with the email and the password gives a session of the new account:
  -- its token lets that account in until it expires. (The email is an address that the login's body
  -- admits and that is normalised already, argon2 verifies the hash of the password, the account's
  -- id is a UUID, and PyJWT keeps its contract for the token.)
  pub seed-IsSeeded :
      (issued : ℕ) (db : Db)
      → id_taken d.tenant_id p.tenants ≡ false
      → name_taken d.tenant_id tenant_name p.tenants ≡ false
      → key_taken d.key_id p.api_keys ≡ false
      → account_taken d.admin_id admin_email admins ≡ false
      → IsGenerated d.key_id d.secret_part
      → libraries.validate_email admin_email ≡ some admin_email
      → libraries.verify (hash_password admin_password) admin_password ≡ matches
      → libraries.uuid d.admin_id ≡ some d.admin_id
      → IsJwt libraries settings (claims_of settings d.admin_id issued)
      → IsSeeded issued db
          (seed tools hash_password d tenant_name admin_email admin_password (p, admins))
  unfolding seed new_key default_tenant
  seed-IsSeeded issued db a b c e g n v u jwt =
      simp (a, b, c, e)
        (record {
          after = _;
          seeded = refl;
          key_accepted = λ now correlation_id.
              authenticate-valid tools now correlation_id _ _ (full_key d.key_id d.secret_part)
                d.key_id d.secret_part _ (default_tenant d.tenant_id d.now tenant_name)
                (presented-bearer_header (full_key d.key_id d.secret_part)
                  (lstrip-full_key d.key_id d.secret_part) g.trimmed)
                (parse_api_key-full_key d.key_id d.secret_part g.no_dot g.id_given g.secret_given)
                (lookup_key-first _ p.api_keys) refl refl (find_tenant-first _ p.tenants) refl;
          admin_accepted = λ correlation_id.
              login-IsSession libraries settings (admin ∷ admins) correlation_id admin_email
                admin_password issued db admin n (find_email-first admin admins) v
                (jwt, u, find_admin-first admin admins);
        })
