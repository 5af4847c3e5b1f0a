-- ===== src/Admin.antt =====
-- src/aegis_gateway/api/admin.py: the state that the admin API shares with authentication, and what its
-- handlers have in common. Every request has a session of its own: what it has not committed when its
-- handler ends, or raises, is rolled back, and so is the context. Money and thresholds are units of
-- TenantContext; negative settings, the rounding of columns, and their lengths but for that of the
-- correlation id, are not modelled.
pub mod Tenants
pub mod Keys
pub mod Requests
pub mod Lifecycle
pub mod Reports
pub mod Login
pub mod Tests
use aegis_gateway.Prelude.{
  ◌&&◌, ℕ, String, Bool, true, false, Option, none, some, List, [], ◌∷◌, ◌≟◌, if◌then◌else◌,
}
use aegis_gateway.Json.{Fields, fields_serializable}
use aegis_gateway.Database.{
  Db, AuditLog, object, set_rls_context, commit, storable, write_audit_event,
}
use aegis_gateway.Authentication.{ApiKey, Tenant}

pub record Plane : Type 0 where
  pub db : Db
  pub tenants : List Tenant
  pub api_keys : List ApiKey

-- `not_found` is HTTP status 404 with its detail, `crashed` an exception that is no `HTTPException`.
pub data Reply {ℓ} (A : Type ℓ) : Type ℓ where
  done : A → Reply A
  not_found : String → Reply A
  crashed : Reply A

-- What the handlers take from outside: `str` of a Decimal, of a key's id, and the digest under the pepper.
pub record Tools : Type 0 where
  pub print_decimal : ℕ → String
  pub print_key_id : List ℕ → String
  pub hash_api_key_secret : List ℕ → String

-- The admin and the request.
pub record By : Type 0 where
  pub admin_id : String
  pub correlation_id : Option String

-- `await set_rls_context(session, tenant_id=None, bypass=True)`
unfoldable pub begin : Plane → Plane
begin p = record p { db = set_rls_context none true p.db }

-- The session is closed: its transaction is over, and what it has not committed is lost.
unfoldable pub close : Plane → Plane
close p = record p { db = commit p.db }

-- `await session.get(Tenant, tenant_id)`; the table has no policy.
unfoldable pub find_tenant : String → List Tenant → Option Tenant
find_tenant id [] = none
find_tenant id (t ∷ tenants) =
    let rest = find_tenant id tenants in if t.settings.tenant_id ≟ id then some t else rest

-- The last step of a handler that changes rows: the event is written, and its commit keeps the changes,
-- unless its detail is no JSON, or the request's correlation id is too long for its column, which raise in
-- the flush before the commit.
unfoldable pub audited {ℓ} :
    {A : Type ℓ}
    → By
    → Option String
    → String
    → Fields
    → (before after : Plane) → A
    → Plane × Reply A
audited by tenant_id event_type detail before after value =
    if fields_serializable detail && storable by.correlation_id
    then (
      record after {
        db =
            write_audit_event
              (record {
                tenant_id = tenant_id;
                event_type = event_type;
                correlation_id = by.correlation_id;
                detail = object detail;
              })
              after.db;
      },
      done value,
    )
    else (close before, crashed)
