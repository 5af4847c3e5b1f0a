-- ===== src/Admin/Keys.antt =====
-- src/aegis_gateway/api/admin.py: `create_api_key` and `revoke_api_key`.
use aegis_gateway.Prelude.{
  ℕ, String, Bool, false, ◌&&◌, ◌||◌, Option, none, some, List, [], ◌∷◌, ◌≟◌, if◌then◌else◌,
}
use aegis_gateway.CodePoints.{same}
use aegis_gateway.Json.{str, nil, field}
use aegis_gateway.Authentication.{ApiKey, Tenant, full_key}
use aegis_gateway.Admin.{
  Plane, Reply, done, not_found, crashed, Tools, By, begin, close, find_tenant, audited,
}

-- `ApiKeyCreatedResponse`: the row, and the key that is shown once.
pub record ApiKeyCreatedResponse : Type 0 where
  pub row : ApiKey
  pub api_key : List ℕ

-- The unique constraint on key_id.
unfoldable pub key_taken : List ℕ → List ApiKey → Bool
key_taken key_id [] = false
key_taken key_id (k ∷ keys) = same k.key_id key_id || key_taken key_id keys

-- `select(ApiKey).where(ApiKey.tenant_id == tenant_id, ApiKey.key_id == key_id)`
unfoldable pub find_own_key : String → List ℕ → List ApiKey → Option ApiKey
find_own_key tenant_id key_id [] = none
find_own_key tenant_id key_id (k ∷ keys) =
    let rest = find_own_key tenant_id key_id keys in
    if (k.tenant_id ≟ tenant_id) && same k.key_id key_id then some k else rest

-- The update of the row with the key's id.
unfoldable pub set_revoked : ℕ → List ℕ → List ApiKey → List ApiKey
set_revoked now key_id [] = []
set_revoked now key_id (k ∷ keys) =
    (if same k.key_id key_id then record k { revoked_at = some now } else k)
    ∷ set_revoked now key_id keys

unfoldable pub new_key : Tools → String → String → ℕ → List ℕ × List ℕ → ApiKey
new_key tools tenant_id name now (key_id, secret_part) = record {
  key_id = key_id;
  tenant_id = tenant_id;
  hashed_secret = tools.hash_api_key_secret secret_part;
  name = name;
  created_at = now;
  revoked_at = none;
  last_used_at = none;
}

module _ (tools : Tools) (by : By) where
  unfoldable pub issued :
      String → ℕ → List ℕ × List ℕ → Option Tenant → Plane → Plane × Reply ApiKeyCreatedResponse
  issued name now generated none p = (close p, not_found "Tenant not found.")
  issued name now (key_id, secret_part) (some tenant) p =
      let q = begin p in
      let id = tenant.settings.tenant_id in
      let row = new_key tools id name now (key_id, secret_part) in
      if key_taken key_id q.api_keys
      then (close p, crashed)
      else audited by (some id) "admin.api_key_issued"
          (field "admin_id" (str by.admin_id)
            (field "key_id" (str (tools.print_key_id key_id)) (field "name" (str name) nil)))
          p (record q { api_keys = row ∷ q.api_keys })
          (record { row = row; api_key = full_key key_id secret_part })

  -- `generated` is the id and the secret of `generate_api_key`.
  unfoldable pub create_api_key :
      String → String → ℕ → List ℕ × List ℕ → Plane → Plane × Reply ApiKeyCreatedResponse
  create_api_key tenant_id name now generated p =
      issued name now generated (find_tenant tenant_id (begin p).tenants) p

  unfoldable pub revoked : String → List ℕ → ℕ → Option ApiKey → Plane → Plane × Reply (Unit {0})
  revoked tenant_id key_id now none p = (close p, not_found "API key not found.")
  revoked tenant_id key_id now (some k) p =
      let q = begin p in
      elim k.revoked_at [
        | some at ↦ (close p, done tt)
        | none ↦
            audited by (some tenant_id) "admin.api_key_revoked"
              (field "admin_id" (str by.admin_id)
                (field "key_id" (str (tools.print_key_id key_id)) nil))
              p (record q { api_keys = set_revoked now key_id q.api_keys }) tt
      ]

  unfoldable pub revoke_api_key : String → List ℕ → ℕ → Plane → Plane × Reply (Unit {0})
  revoke_api_key tenant_id key_id now p =
      revoked tenant_id key_id now (find_own_key tenant_id key_id (begin p).api_keys) p
