-- ===== src/Authentication/Laws.antt =====
-- What authentication accepts, and what it writes.
use aegis_gateway.Prelude.{
  ℕ, String, true, false, Option, none, some, List, [], ◌∷◌, ◌++◌, ◌==◌, ◌≟◌, ◌≡◌, refl, ◌⊎◌, inl,
  inr, All, Bool-cases, Option-cases, ap, ◌∙◌,
}
use aegis_gateway.CodePoints.{remove_prefix, is_empty}
use aegis_gateway.ProviderError.{unauthorized_error}
use aegis_gateway.Database.{
  AuditLog, RlsContext, Detail, no_context, commit, set_rls_context, storable,
}
use aegis_gateway.Database.Laws.{write_audit_event_lem, write_audit_event-refused}
use aegis_gateway.Authentication.{
  partition, parts_given, parse_api_key, full_key, presented, ApiKey, Tenant, Accounts, Outcome,
  unauthorized, authenticated, raised, refusal, find_key, fail, admit, with_tenant, with_secret,
  with_key, with_parts, with_token, get_current_tenant,
}

partition-join :
    (key_id secret_part : List ℕ)
    → All (λ c. (c == b'.') ≡ false) key_id
    → partition (key_id ++ b'.' ∷ secret_part) ≡ (key_id, secret_part)
unfolding partition
partition-join [] secret_part h = refl
partition-join (c ∷ key_id) secret_part h =
    simp h.0 (ap (λ p. (c ∷ p.0, p.1)) (partition-join key_id secret_part h.1))

-- A generated key parses into its id and its secret, if neither is empty and the id has no dot.
pub parse_api_key-full_key :
    (key_id secret_part : List ℕ)
    → All (λ c. (c == b'.') ≡ false) key_id
    → is_empty key_id ≡ false
    → is_empty secret_part ≡ false
    → parse_api_key (full_key key_id secret_part) ≡ some (key_id, secret_part)
unfolding parse_api_key full_key remove_prefix
parse_api_key-full_key key_id secret_part no_dot id_given secret_given =
    ap parts_given (partition-join key_id secret_part no_dot)
    ∙ simp id_given (simp secret_given (refl))

module _ (hash_api_key_secret : List ℕ → String) (tenants : String → Option Tenant)
    (printed : List ℕ → String) (now : ℕ) (correlation_id : Option String) where
  -- The request is refused with status 401 and one audit event, and nothing else is written.
  pub record IsRefused (a : Accounts) (r : Accounts × Outcome) : Type 0 where
    pub storable_id : storable correlation_id ≡ true
    pub row : AuditLog
    pub event : row.event_type ≡ "auth.failure"
    pub written :
        r.0.db ≡ record a.db { audit_log = a.db.audit_log ++ row ∷ []; context = no_context }
    pub keys : r.0.api_keys ≡ a.api_keys
    pub status : (message : String) × (r.1 ≡ unauthorized (unauthorized_error message))

  -- The event's correlation id is too long for its column, so that its INSERT raises and nothing is written.
  pub record IsRaised (a : Accounts) (r : Accounts × Outcome) : Type 0 where
    pub too_long : storable correlation_id ≡ false
    pub written : r.0.db ≡ record a.db { refused = true; context = no_context }
    pub keys : r.0.api_keys ≡ a.api_keys
    pub status : r.1 ≡ raised

  abbrev pub IsFailed : Accounts → Accounts × Outcome → Type 0
  IsFailed a r = IsRefused a r ⊎ IsRaised a r

  -- The request presents a key that is in the table and not revoked, with its secret, and its tenant is
  -- active; it gets the tenant's settings, writes no event, and its session has no context at the end.
  pub record IsAccepted (auth_header : List ℕ) (a : Accounts) (r : Accounts × Outcome)
      : Type 0 where
    pub key_id : List ℕ
    pub secret_part : List ℕ
    pub api_key : ApiKey
    pub tenant : Tenant
    pub parsed :
        (key : List ℕ) × (presented auth_header ≡ some key)
        × (parse_api_key key ≡ some (key_id, secret_part))
    pub found : find_key key_id (set_rls_context none true a.db) a.api_keys ≡ some api_key
    pub not_revoked : api_key.revoked_at ≡ none
    pub verified : (hash_api_key_secret secret_part ≟ api_key.hashed_secret) ≡ true
    pub tenant_found : tenants api_key.tenant_id ≡ some tenant
    pub active : tenant.is_active ≡ true
    pub context :
        r.1 ≡ authenticated (record tenant.settings { api_key_id = printed api_key.key_id })
    pub written : r.0.db ≡ record a.db { context = no_context }

  abbrev pub IsDecided : List ℕ → Accounts → Accounts × Outcome → Type 0
  IsDecided auth_header a r = IsFailed a r ⊎ IsAccepted auth_header a r

  -- A failure, whatever context the session has.
  fail-IsFailed :
      (tenant_id : Option String) (detail : Detail) (message : String) (a : Accounts)
      (context : RlsContext)
      → IsFailed a (
          fail hash_api_key_secret tenants printed now correlation_id tenant_id detail message
            (record a { db = record a.db { context = context } }))
  unfolding fail refusal
  fail-IsFailed tenant_id detail message a context = elim (Bool-cases (storable correlation_id)) [
    | inl fits ↦ inl (record {
      storable_id = fits;
      row = record {
        tenant_id = tenant_id;
        event_type = "auth.failure";
        correlation_id = correlation_id;
        detail = detail;
      };
      event = refl;
      written = write_audit_event_lem _ (record a.db { context = context }) fits;
      keys = refl;
      status = (message, simp fits);
    })
    | inr long ↦ inr (record {
      too_long = long;
      written = write_audit_event-refused _ (record a.db { context = context }) long;
      keys = refl;
      status = simp long;
    })
  ]

  module _ (auth_header : List ℕ) (a : Accounts) (key key_id secret_part : List ℕ)
      (has_key : presented auth_header ≡ some key)
      (has_parts : parse_api_key key ≡ some (key_id, secret_part)) where
    abbrev looking : Accounts
    looking = record a { db = set_rls_context none true a.db }

    module _ (k : ApiKey)
        (has_row : find_key key_id (set_rls_context none true a.db) a.api_keys ≡ some k)
        (valid : k.revoked_at ≡ none)
        (secret_matches : (hash_api_key_secret secret_part ≟ k.hashed_secret) ≡ true) where
      with_tenant-IsDecided :
          (o : Option Tenant)
          → tenants k.tenant_id ≡ o
          → IsDecided auth_header a (
              with_tenant hash_api_key_secret tenants printed now correlation_id k o
                (record looking { db = set_rls_context (some k.tenant_id) false looking.db }))
      unfolding with_tenant set_rls_context admit commit
      with_tenant-IsDecided none e = inl (fail-IsFailed _ _ _ a _)
      with_tenant-IsDecided (some tenant) e = elim (Bool-cases tenant.is_active) [
        | inl on ↦ simp on (
            inr (record {
              key_id = key_id;
              secret_part = secret_part;
              api_key = k;
              tenant = tenant;
              parsed = (key, has_key, has_parts);
              found = has_row;
              not_revoked = valid;
              verified = secret_matches;
              tenant_found = e;
              active = on;
              context = refl;
              written = refl;
            }))
        | inr off ↦ simp off (inl (fail-IsFailed _ _ _ a _))
      ]

    with_secret-IsDecided :
        (k : ApiKey)
        → find_key key_id (set_rls_context none true a.db) a.api_keys ≡ some k
        → k.revoked_at ≡ none
        → IsDecided auth_header a (
            with_secret hash_api_key_secret tenants printed now correlation_id k secret_part
              looking)
    unfolding with_secret set_rls_context
    with_secret-IsDecided k row valid =
        elim (Bool-cases (hash_api_key_secret secret_part ≟ k.hashed_secret)) [
          | inl ok ↦ simp ok (with_tenant-IsDecided k row valid ok (tenants k.tenant_id) refl)
          | inr bad ↦ simp bad (inl (fail-IsFailed _ _ _ a _))
        ]

    with_key-IsDecided :
        (o : Option ApiKey)
        → find_key key_id (set_rls_context none true a.db) a.api_keys ≡ o
        → IsDecided auth_header a (
            with_key hash_api_key_secret tenants printed now correlation_id
              (key_id, secret_part)
              o
              looking)
    unfolding with_key set_rls_context
    with_key-IsDecided none e = inl (fail-IsFailed _ _ _ a _)
    with_key-IsDecided (some k) e = elim (Option-cases k.revoked_at) [
      | inl valid ↦ simp valid (with_secret-IsDecided k e valid)
      | inr (at, revoked) ↦ simp revoked (inl (fail-IsFailed _ _ _ a _))
    ]

  with_parts-IsDecided :
      (auth_header : List ℕ) (a : Accounts) (key : List ℕ) (o : Option (List ℕ × List ℕ))
      → presented auth_header ≡ some key
      → parse_api_key key ≡ o
      → IsDecided auth_header a
          (with_parts hash_api_key_secret tenants printed now correlation_id o a)
  unfolding with_parts
  with_parts-IsDecided auth_header a key none p e = inl (fail-IsFailed _ _ _ a a.db.context)
  with_parts-IsDecided auth_header a key (some (key_id, secret_part)) p e =
      with_key-IsDecided auth_header a key key_id secret_part p e _ refl

  with_token-IsDecided :
      (auth_header : List ℕ) (a : Accounts) (o : Option (List ℕ))
      → presented auth_header ≡ o
      → IsDecided auth_header a
          (with_token hash_api_key_secret tenants printed now correlation_id o a)
  unfolding with_token
  with_token-IsDecided auth_header a none p = inl (fail-IsFailed _ _ _ a a.db.context)
  with_token-IsDecided auth_header a (some key) p =
      with_parts-IsDecided auth_header a key (parse_api_key key) p refl

  -- Every request is either refused with status 401, one audit event "auth.failure", and no change to
  -- the keys; or, only if the client's correlation id has more than 64 characters, a refusal becomes
  -- an exception, with no event and no change to the keys; or it presented a key of the table that is not revoked, with a secret of the stored
  -- digest, of an active tenant: then it gets that tenant's settings, no event is written, and
  -- the session is left without a tenant's context.
  pub get_current_tenant_lem :
      (auth_header : List ℕ) (a : Accounts)
      → IsDecided auth_header a
          (get_current_tenant hash_api_key_secret tenants printed now correlation_id auth_header a)
  unfolding get_current_tenant
  get_current_tenant_lem auth_header a =
      with_token-IsDecided auth_header a (presented auth_header) refl
