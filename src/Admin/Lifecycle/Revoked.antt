-- ===== src/Admin/Lifecycle/Revoked.antt =====
-- A revoked key stays revoked.
use aegis_gateway.Prelude.{
  ℕ, String, Bool, true, false, Option, none, some, List, [], ◌∷◌, ◌≡◌, refl, arith, Option-cases,
  inl, inr, ◌∙◌, ap, sym,
}
use aegis_gateway.Database.{Db, set_rls_context, tenant_isolation}
use aegis_gateway.Authentication.{
  ApiKey, Tenant, Accounts, Outcome, refusal, find_key, touch, presented, parse_api_key, fail,
  admit, with_tenant, with_secret, with_key, with_parts, with_token, get_current_tenant,
}
use aegis_gateway.Admin.{Plane, Tools, By, close}
use aegis_gateway.Admin.Keys.{new_key}
use aegis_gateway.Admin.Requests.{Request, revoke, distinct_keys, handle, lookup_key}
use aegis_gateway.Admin.Requests.Lookups.{
  same→≡, same_refl, lookup_key-find_own_key, lookup_key-key_taken, lookup_key-set_revoked,
}
use aegis_gateway.Admin.Requests.Steps.{
  Step, failed, created, changed, issued_to, revoked_now, revoked_before, handle-Step,
}
use aegis_gateway.Admin.Lifecycle.{authenticate, Event, administer, arrive, serve, serve_all}

-- With the bypass the policy shows every row.
pub find_key-lookup_key :
    (key_id : List ℕ) (tenant_id : Option String) (db : Db) (keys : List ApiKey)
    → find_key key_id (set_rls_context tenant_id true db) keys ≡ lookup_key key_id keys
unfolding find_key lookup_key set_rls_context tenant_isolation
find_key-lookup_key key_id tenant_id db [] = refl
find_key-lookup_key key_id tenant_id db (k ∷ keys) =
    ground (arith, find_key-lookup_key key_id tenant_id db keys)

abbrev pub is_revoked : Option ApiKey → Bool
is_revoked none = false
is_revoked (some k) = elim k.revoked_at [ none ↦ false | some at ↦ true ]

-- A key but for the time of its last use.
abbrev pub without_use : Option ApiKey → Option ApiKey
without_use none = none
without_use (some k) = some (record k { last_used_at = none })

is_revoked-without_use : (o : Option ApiKey) → is_revoked (without_use o) ≡ is_revoked o
is_revoked-without_use none = refl
is_revoked-without_use (some k) = refl

without_use-touch :
    (now : ℕ) (key_id i : List ℕ) (db : Db) (keys : List ApiKey)
    → without_use (lookup_key i (touch now key_id db keys)) ≡ without_use (lookup_key i keys)
unfolding lookup_key touch
without_use-touch now key_id i db [] = refl
without_use-touch now key_id i db (k ∷ keys) =
    ground (arith, without_use-touch now key_id i db keys)

module _ (hash_api_key_secret : List ℕ → String) (tenants : String → Option Tenant)
    (printed : List ℕ → String) (now : ℕ) (correlation_id : Option String) (i : List ℕ) where
  abbrev Keeps : Accounts → Accounts × Outcome → Type 0
  Keeps a r = without_use (lookup_key i r.0.api_keys) ≡ without_use (lookup_key i a.api_keys)

  with_secret-Keeps :
      (k : ApiKey) (secret_part : List ℕ) (a : Accounts)
      → Keeps a (with_secret hash_api_key_secret tenants printed now correlation_id k secret_part a)
  unfolding with_secret with_tenant admit fail
  with_secret-Keeps k secret_part a = ground (
    arith,
    without_use-touch now k.key_id i (set_rls_context (some k.tenant_id) false a.db) a.api_keys,
  )

  with_key-Keeps :
      (parts : List ℕ × List ℕ) (o : Option ApiKey) (a : Accounts)
      → Keeps a (with_key hash_api_key_secret tenants printed now correlation_id parts o a)
  unfolding with_key fail
  with_key-Keeps (key_id, secret_part) none a = refl
  with_key-Keeps (key_id, secret_part) (some k) a = elim (Option-cases k.revoked_at) [
    | inl valid ↦ simp valid (with_secret-Keeps k secret_part a)
    | inr (at, before) ↦ simp before
  ]

  refused-with_key :
      (parts : List ℕ × List ℕ) (o : Option ApiKey) (a : Accounts)
      → is_revoked o ≡ true
      → (with_key hash_api_key_secret tenants printed now correlation_id parts o a).1
        ≡ refusal correlation_id "Invalid API key provided."
  unfolding with_key fail
  refused-with_key (key_id, secret_part) none a h = refl
  refused-with_key (key_id, secret_part) (some k) a h = elim (Option-cases k.revoked_at) [
    | inl valid ↦ ground arith
    | inr (at, before) ↦ simp before
  ]

  with_parts-Keeps :
      (parts : Option (List ℕ × List ℕ)) (a : Accounts)
      → Keeps a (with_parts hash_api_key_secret tenants printed now correlation_id parts a)
  unfolding with_parts fail
  with_parts-Keeps none a = refl
  with_parts-Keeps (some (key_id, secret_part)) a = with_key-Keeps (key_id, secret_part) _ _

  with_token-Keeps :
      (key : Option (List ℕ)) (a : Accounts)
      → Keeps a (with_token hash_api_key_secret tenants printed now correlation_id key a)
  unfolding with_token fail
  with_token-Keeps none a = refl
  with_token-Keeps (some key) a = with_parts-Keeps (parse_api_key key) a

-- A request of a client changes no key but for the time of its last use.
pub authenticate_keeps :
    (tools : Tools) (now : ℕ) (correlation_id : Option String) (auth_header i : List ℕ) (p : Plane)
    → without_use (lookup_key i (authenticate tools now correlation_id auth_header p).0.api_keys)
      ≡ without_use (lookup_key i p.api_keys)
unfolding authenticate get_current_tenant
authenticate_keeps tools now correlation_id auth_header i p =
    with_token-Keeps tools.hash_api_key_secret _ tools.print_key_id now correlation_id i
      (presented auth_header) _

module _ (tools : Tools) (by : By) (p : Plane) (i : List ℕ) where
  step_keeps :
      (r : Request) (q : Plane × Bool)
      → Step tools by p r q
      → is_revoked (lookup_key i p.api_keys) ≡ true
      → is_revoked (lookup_key i q.0.api_keys) ≡ true
  unfolding close lookup_key new_key
  step_keeps _ _ (failed r) h = h
  step_keeps _ _ (created id now payload event named a b) h = h
  step_keeps _ _ (changed id payload t event named e free) h = h
  step_keeps _ _ (issued_to id name now key_id secret_part t event named e free) h =
      grind (arith, same→≡ key_id i, lookup_key-key_taken key_id p.api_keys free)
  step_keeps _ _ (revoked_now id key_id now k event named e valid) h =
      grind (arith, lookup_key-set_revoked now key_id i p.api_keys)
  step_keeps _ _ (revoked_before id key_id now k at e before) h = h

revoked-Step :
    (tools : Tools) (by : By) (tenant_id : String) (key_id : List ℕ) (now : ℕ) (p : Plane)
    (q : Plane × Bool)
    → distinct_keys p.api_keys ≡ true
    → Step tools by p (revoke tenant_id key_id now) q
    → q.1 ≡ true
    → is_revoked (lookup_key key_id q.0.api_keys) ≡ true
unfolding close
revoked-Step tools by tenant_id key_id now p _ d (failed r) ok = ground arith
revoked-Step tools by tenant_id key_id now p _ d (revoked_now _ _ _ k event named e valid) ok =
    grind (
      arith,
      same_refl key_id,
      lookup_key-set_revoked now key_id key_id p.api_keys,
      lookup_key-find_own_key tenant_id key_id p.api_keys k d e,
    )
revoked-Step tools by tenant_id key_id now p _ d (revoked_before _ _ _ k at e before) ok =
    grind (arith, lookup_key-find_own_key tenant_id key_id p.api_keys k d e)

serve_all_keeps :
    (tools : Tools) (i : List ℕ) (events : List Event) (p : Plane)
    → is_revoked (lookup_key i p.api_keys) ≡ true
    → is_revoked (lookup_key i (serve_all tools events p).api_keys) ≡ true
unfolding serve_all serve
serve_all_keeps tools i [] p h = h
serve_all_keeps tools i (administer by request ∷ events) p h = serve_all_keeps tools i events _ (
    step_keeps tools by p i request (handle tools (by, request) p) (handle-Step tools by p request)
      h)
serve_all_keeps tools i (arrive now correlation_id auth_header ∷ events) p h =
    serve_all_keeps tools i events _ (
      sym (is_revoked-without_use _)
      ∙ ap is_revoked (authenticate_keeps tools now correlation_id auth_header i p)
      ∙ is_revoked-without_use _
      ∙ h)

authenticate-revoked :
    (tools : Tools) (now : ℕ) (correlation_id : Option String)
    (auth_header key key_id secret_part : List ℕ) (p : Plane)
    → presented auth_header ≡ some key
    → parse_api_key key ≡ some (key_id, secret_part)
    → is_revoked (lookup_key key_id p.api_keys) ≡ true
    → (authenticate tools now correlation_id auth_header p).1
      ≡ refusal correlation_id "Invalid API key provided."
unfolding authenticate get_current_tenant with_token with_parts
authenticate-revoked tools now correlation_id auth_header key key_id secret_part p e f h = simp e (
    simp f (
      refused-with_key tools.hash_api_key_secret _ tools.print_key_id now correlation_id key_id
        (key_id, secret_part) _ _
        (ap is_revoked (find_key-lookup_key key_id none p.db p.api_keys) ∙ h)))

-- Among distinct key ids, once a revocation has succeeded, every later request to the proxy that
-- presents a key with that id is refused as "Invalid API key provided.", whatever requests to
-- either interface came in between; with a correlation id of more than 64 characters the refusal
-- is an exception.
pub revoked_key_refused :
    (tools : Tools) (by : By) (tenant_id : String) (key_id : List ℕ) (now : ℕ) (p : Plane)
    → distinct_keys p.api_keys ≡ true
    → (handle tools (by, revoke tenant_id key_id now) p).1 ≡ true
    → (events : List Event) (later : ℕ) (correlation_id : Option String)
      (auth_header key secret_part : List ℕ)
    → presented auth_header ≡ some key
    → parse_api_key key ≡ some (key_id, secret_part)
    → (authenticate tools later correlation_id auth_header
        (serve_all tools events (handle tools (by, revoke tenant_id key_id now) p).0)).1
      ≡ refusal correlation_id "Invalid API key provided."
revoked_key_refused tools by tenant_id key_id now p d ok events later correlation_id auth_header key
      secret_part e f =
    authenticate-revoked tools later correlation_id auth_header key key_id secret_part _ e f (
      serve_all_keeps tools key_id events _
        (revoked-Step tools by tenant_id key_id now p _ d (handle-Step tools by p _) ok))
