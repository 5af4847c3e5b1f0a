-- ===== src/Authentication.antt =====
-- src/aegis_gateway/middleware/auth.py (`get_current_tenant`) and core/security.py (`parse_api_key`,
-- `verify_api_key_secret`). The header, a key and its parts are lists of code points below 256; the digest of
-- a secret, HMAC-SHA256 under the pepper, is the argument `hash_api_key_secret`.
pub mod Laws
pub mod Tests
pub mod Generation
use aegis_gateway.Prelude.{
  ℕ, ◌+◌, String, Bool, true, false, ◌&&◌, ◌||◌, Option, none, some, List, [], ◌∷◌, ◌++◌, ◌==◌, ◌≟◌,
  leb, map, if◌then◌else◌,
}
use aegis_gateway.CodePoints.{strip, remove_prefix, same, is_empty}
use aegis_gateway.ProviderError.{HttpException, unauthorized_error}
use aegis_gateway.Context.{TenantContext}
use aegis_gateway.Database.{
  Detail, reason, reason_key, Db, tenant_isolation, set_rls_context, storable, commit,
  write_audit_event,
}

-- `API_KEY_PREFIX`
abbrev pub api_key_prefix : List ℕ
api_key_prefix = b'a' ∷ b'g' ∷ b'k' ∷ b'_' ∷ b'l' ∷ b'i' ∷ b'v' ∷ b'e' ∷ b'_' ∷ []

-- `partition(".")`, without the separator: what follows is empty if there is none.
unfoldable pub partition : List ℕ → List ℕ × List ℕ
partition [] = ([], [])
partition (c ∷ s) =
    let (key_id, secret_part) = partition s in
    if c == b'.' then ([], s) else (c ∷ key_id, secret_part)

-- `if not key_id or not secret_part`
unfoldable pub parts_given : List ℕ × List ℕ → Option (List ℕ × List ℕ)
parts_given (key_id, secret_part) =
    if is_empty key_id || is_empty secret_part then none else some (key_id, secret_part)

unfoldable pub parse_api_key : List ℕ → Option (List ℕ × List ℕ)
unfolding parts_given
parse_api_key full_key = elim (remove_prefix api_key_prefix full_key) [
  | none ↦ none
  | some remainder ↦ parts_given (partition remainder)
]

-- `full_key` of `generate_api_key`
unfoldable pub full_key : List ℕ → List ℕ → List ℕ
full_key key_id secret_part = api_key_prefix ++ key_id ++ b'.' ∷ secret_part

-- `auth_header.lower()`
abbrev pub lower : ℕ → ℕ
lower c = if leb b'A' c && leb c b'Z' then c + 32 else c

abbrev pub bearer : List ℕ
bearer = b'b' ∷ b'e' ∷ b'a' ∷ b'r' ∷ b'e' ∷ b'r' ∷ b' ' ∷ []

abbrev pub has_prefix : Option (List ℕ) → Bool
has_prefix none = false
has_prefix (some rest) = true

-- `split(" ", 1)[1]`
unfoldable pub after_space : List ℕ → List ℕ
after_space [] = []
after_space (c ∷ s) = let rest = after_space s in if c == b' ' then s else rest

-- The presented key, if the header has a bearer token.
unfoldable pub presented : List ℕ → Option (List ℕ)
presented auth_header =
    if has_prefix (remove_prefix bearer (map lower auth_header))
    then some (strip (after_space auth_header))
    else none

-- A row of api_keys; `scopes` is never read, and always the empty list.
pub record ApiKey : Type 0 where
  pub key_id : List ℕ
  pub tenant_id : String
  pub hashed_secret : String
  pub name : String
  pub created_at : ℕ
  pub revoked_at : Option ℕ
  pub last_used_at : Option ℕ

-- A row of tenants: its id and settings, as `TenantContext` takes them, and its other columns. The
-- field `api_key_id` of `settings` has no meaning here.
pub record Tenant : Type 0 where
  pub settings : TenantContext
  pub is_active : Bool
  pub created_at : ℕ

pub record Accounts : Type 0 where
  pub db : Db
  pub api_keys : List ApiKey

-- `raised` is an exception that is no `HTTPException`.
pub data Outcome : Type 0 where
  unauthorized : HttpException → Outcome
  authenticated : TenantContext → Outcome
  raised : Outcome

-- `select(ApiKey).where(ApiKey.key_id == key_id)`: a row that the policy shows. Key ids are unique.
unfoldable pub find_key : List ℕ → Db → List ApiKey → Option ApiKey
find_key key_id db [] = none
find_key key_id db (k ∷ keys) =
    let rest = find_key key_id db keys in
    if same k.key_id key_id && tenant_isolation db.context (some k.tenant_id) then some k else rest

-- `api_key.last_used_at = …`, flushed as an update of the row, if the policy shows it.
unfoldable pub touch : ℕ → List ℕ → Db → List ApiKey → List ApiKey
touch now key_id db [] = []
touch now key_id db (k ∷ keys) =
    (if same k.key_id key_id && tenant_isolation db.context (some k.tenant_id)
      then record k { last_used_at = some now }
      else k)
    ∷ touch now key_id db keys

-- The default message of `UnauthorizedError`.
abbrev invalid : String
invalid = "Invalid API key provided."

unfoldable pub refusal : Option String → String → Outcome
refusal correlation_id message =
    if storable correlation_id then unauthorized (unauthorized_error message) else raised

module _ (hash_api_key_secret : List ℕ → String) (tenants : String → Option Tenant)
    (printed : List ℕ → String) (now : ℕ) (correlation_id : Option String) where
  -- An audit event, and then the exception; an event that the database refuses raises another.
  unfoldable pub fail : Option String → Detail → String → Accounts → Accounts × Outcome
  fail tenant_id detail message a = (
    record a {
      db =
          write_audit_event
            (record {
              tenant_id = tenant_id;
              event_type = "auth.failure";
              correlation_id = correlation_id;
              detail = detail;
            })
            a.db;
    },
    refusal correlation_id message,
  )

  unfoldable pub admit : ApiKey → Tenant → Accounts → Accounts × Outcome
  admit k tenant a = (
    record { db = commit a.db; api_keys = touch now k.key_id a.db a.api_keys },
    authenticated (record tenant.settings { api_key_id = printed k.key_id }),
  )

  unfoldable pub with_tenant : ApiKey → Option Tenant → Accounts → Accounts × Outcome
  with_tenant k none a =
      fail (some k.tenant_id) (reason_key "tenant_inactive" (printed k.key_id))
        "Tenant is inactive." a
  with_tenant k (some tenant) a =
      if tenant.is_active
      then admit k tenant a
      else fail (some k.tenant_id) (reason_key "tenant_inactive" (printed k.key_id))
          "Tenant is inactive." a

  unfoldable pub with_secret : ApiKey → List ℕ → Accounts → Accounts × Outcome
  with_secret k secret_part a =
      if hash_api_key_secret secret_part ≟ k.hashed_secret
      then with_tenant k (tenants k.tenant_id)
          (record a { db = set_rls_context (some k.tenant_id) false a.db })
      else fail (some k.tenant_id) (reason_key "invalid_secret" (printed k.key_id)) invalid a

  unfoldable pub with_key : List ℕ × List ℕ → Option ApiKey → Accounts → Accounts × Outcome
  with_key (key_id, secret_part) none a =
      fail none (reason_key "key_not_found" (printed key_id)) invalid a
  with_key (key_id, secret_part) (some k) a = elim k.revoked_at [
    | some at ↦ fail (some k.tenant_id) (reason_key "key_revoked" (printed key_id)) invalid a
    | none ↦ with_secret k secret_part a
  ]

  unfoldable pub with_parts : Option (List ℕ × List ℕ) → Accounts → Accounts × Outcome
  with_parts none a = fail none (reason "malformed_api_key") "Malformed API key." a
  with_parts (some (key_id, secret_part)) a =
      let db = set_rls_context none true a.db in
      with_key (key_id, secret_part) (find_key key_id db a.api_keys) (record a { db = db })

  unfoldable pub with_token : Option (List ℕ) → Accounts → Accounts × Outcome
  with_token none a = fail none (reason "missing_bearer_token") "Missing bearer token." a
  with_token (some presented_key) a = with_parts (parse_api_key presented_key) a

  unfoldable pub get_current_tenant : List ℕ → Accounts → Accounts × Outcome
  get_current_tenant auth_header a = with_token (presented auth_header) a
