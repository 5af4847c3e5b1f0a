-- ===== src/Authentication/Tests.antt =====
-- Authentication on concrete inputs.
use aegis_gateway.Prelude.{ℕ, String, true, Option, none, some, List, [], ◌∷◌, ◌≟◌, if◌then◌else◌}
use aegis_gateway.Authentication.{Tenant, Accounts, get_current_tenant}
use aegis_gateway.Authentication.Laws.{IsDecided, get_current_tenant_lem}
use aegis_gateway.Scenario.{tenant, trail}

abbrev key_id : List ℕ
key_id = b'1' ∷ b'f' ∷ []

abbrev accounts : Accounts
accounts = record {
  db = trail.db;
  api_keys =
      record {
        key_id = key_id;
        tenant_id = "t1";
        hashed_secret = "digest";
        name = "first";
        created_at = 0;
        revoked_at = none;
        last_used_at = none;
      }
      ∷ [];
}

abbrev digest : List ℕ → String
digest s = "digest"

abbrev tenants : String → Option Tenant
tenants id =
    if id ≟ "t1"
    then some (record { settings = tenant; is_active = true; created_at = 0 })
    else none

abbrev printed : List ℕ → String
printed id = "1f"

abbrev header : List ℕ
header =
    b'B' ∷ b'e' ∷ b'a' ∷ b'r' ∷ b'e' ∷ b'r' ∷ b' ' ∷ b'a' ∷ b'g' ∷ b'k' ∷ b'_' ∷ b'l' ∷ b'i' ∷ b'v'
    ∷ b'e' ∷ b'_' ∷ b'1' ∷ b'f' ∷ b'.' ∷ b's' ∷ []

get_current_tenant_lem_example :
    IsDecided digest tenants printed 1_000 none header accounts
      (get_current_tenant digest tenants printed 1_000 none header accounts)
get_current_tenant_lem_example =
    get_current_tenant_lem digest tenants printed 1_000 none header accounts
