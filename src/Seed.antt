-- ===== src/Seed.antt =====
-- scripts/seed.py: the first tenant, its key and the only way to an admin account, in one transaction of
-- the tables' owner, whom no policy binds. The hash of a password is the argument `hash_password`.
pub mod Laws
pub mod Tests
use aegis_gateway.Prelude.{
  ℕ, String, Bool, true, false, ◌||◌, Option, none, some, List, [], ◌∷◌, ◌≟◌, if◌then◌else◌,
}
use aegis_gateway.Context.{block}
use aegis_gateway.Admin.{Plane, Tools}
use aegis_gateway.Authentication.{ApiKey, Tenant}
use aegis_gateway.Admin.Tenants.{id_taken, name_taken}
use aegis_gateway.Admin.Keys.{key_taken, new_key}
use aegis_gateway.Admin.Login.{AdminUser}

-- The unique columns of admin_users.
unfoldable pub account_taken : String → String → List AdminUser → Bool
account_taken id email [] = false
account_taken id email (a ∷ admins) =
    (a.id ≟ id) || ((a.email ≟ email) || account_taken id email admins)

-- `Tenant(name=tenant_name)`, with the columns' defaults.
unfoldable pub default_tenant : String → ℕ → String → Tenant
default_tenant id now tenant_name = record {
  settings = record {
    tenant_id = id;
    tenant_name = tenant_name;
    api_key_id = "";
    monthly_budget_usd = 10_000_000_000;
    rate_limit_rpm = 60;
    rate_limit_tpm = 100_000;
    max_concurrent_requests = 5;
    pii_redaction_enabled = true;
    injection_detection_enabled = true;
    injection_detection_threshold = 750;
    injection_detection_mode = block;
    cache_enabled = true;
  };
  is_active = true;
  created_at = now;
}

-- What the defaults and `generate_api_key` give.
pub record Drawn : Type 0 where
  pub tenant_id : String
  pub admin_id : String
  pub key_id : List ℕ
  pub secret_part : List ℕ
  pub now : ℕ

abbrev pub seed_admin : (String → String) → String → String → String → AdminUser
seed_admin hash_password admin_id admin_email admin_password = record {
  id = admin_id;
  email = admin_email;
  hashed_password = hash_password admin_password;
  is_superuser = true;
}

-- None if a constraint fails: the script raises, and the transaction is rolled back.
unfoldable pub seed :
    Tools
    → (String → String)
    → Drawn
    → (tenant_name admin_email admin_password : String) → Plane × List AdminUser
    → Option (Plane × List AdminUser)
seed tools hash_password d tenant_name admin_email admin_password (p, admins) =
    if id_taken d.tenant_id p.tenants
      || (name_taken d.tenant_id tenant_name p.tenants
          || (key_taken d.key_id p.api_keys || account_taken d.admin_id admin_email admins))
    then none
    else some (
      record p {
        tenants = default_tenant d.tenant_id d.now tenant_name ∷ p.tenants;
        api_keys =
            new_key tools d.tenant_id "seed-default-key" d.now (d.key_id, d.secret_part)
            ∷ p.api_keys;
      },
      seed_admin hash_password d.admin_id admin_email admin_password ∷ admins,
    )
