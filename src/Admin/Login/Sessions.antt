-- ===== src/Admin/Login/Sessions.antt =====
-- A login, and what its token opens.
use aegis_gateway.Prelude.{
  ℕ, true, ◌+◌, ◌*◌, ◌≤◌, ◌<◌, String, Option, none, some, List, [], ◌∷◌, ◌++◌, ◌≡◌, refl, ap,
  Bool-cases, inl, inr, if◌then◌else◌,
}
use mathlib.Core.List.{reverse}
use aegis_gateway.CodePoints.{lstrip}
use aegis_gateway.ProviderError.{unauthorized_error}
use aegis_gateway.Json.{str, nil, field}
use aegis_gateway.Database.{Db, object, no_context, RlsContext, set_rls_context, commit, storable}
use aegis_gateway.Database.Laws.{write_audit_event_lem, write_audit_event-refused}
use aegis_gateway.Admin.Lifecycle.{bearer_header}
use aegis_gateway.Admin.Lifecycle.Issued.{presented-bearer_header}
use aegis_gateway.Admin.Login.{
  Verification, crashed, broken, AdminUser, Claims, claims_of, matches, mismatch, Libraries,
  Settings, TokenResponse, LoginReply, token, unauthorized, unprocessable, AdminReply, refused,
  admitted, find_email, find_admin, create_admin_jwt, in_scope, decode_admin_jwt, login_failure,
  verified, login_as, login_at, login, with_admin, with_id, with_claims, with_bearer,
  get_current_admin,
}

-- What PyJWT documents of a token that has been encoded: it decodes under the same secret and algorithm, from
-- its `iat` on and before its `exp`, to its claims, and not from its `exp` on; and it has no white
-- space around it.
pub record IsJwt (libraries : Libraries) (settings : Settings) (c : Claims) : Type 0 where
  pub valid :
      (now : ℕ)
      → c.iat ≤ now
      → now < c.exp
      → libraries.decode now
          (libraries.encode c settings.jwt_secret settings.jwt_algorithm)
          settings.jwt_secret
          settings.jwt_algorithm
        ≡ some c
  pub expired :
      (now : ℕ)
      → c.exp ≤ now
      → libraries.decode now
          (libraries.encode c settings.jwt_secret settings.jwt_algorithm)
          settings.jwt_secret
          settings.jwt_algorithm
        ≡ none
  pub trimmed :
      (lstrip (libraries.encode c settings.jwt_secret settings.jwt_algorithm)
        ≡ libraries.encode c settings.jwt_secret settings.jwt_algorithm)
      × (lstrip (reverse (libraries.encode c settings.jwt_secret settings.jwt_algorithm))
          ≡ reverse (libraries.encode c settings.jwt_secret settings.jwt_algorithm))

-- One answer for an unknown email and for a wrong password.
abbrev pub rejected : LoginReply
rejected = unauthorized (unauthorized_error "Invalid email or password.")

module _ (libraries : Libraries) (settings : Settings) (admins : List AdminUser)
    (correlation_id : Option String) where
  abbrev enter : ℕ → List ℕ → Db → Db × AdminReply
  enter = get_current_admin libraries settings admins correlation_id

  decoded_token :
      (admin : AdminUser) (c : Claims) (now : ℕ) (db : Db)
      → c.sub ≡ some admin.id
      → c.scope ≡ some "admin"
      → libraries.uuid admin.id ≡ some admin.id
      → find_admin admin.id admins ≡ some admin
      → libraries.decode now
          (libraries.encode c settings.jwt_secret settings.jwt_algorithm)
          settings.jwt_secret
          settings.jwt_algorithm
        ≡ some c
      → (with_bearer libraries settings admins correlation_id now
          (some (libraries.encode c settings.jwt_secret settings.jwt_algorithm))
          db).1
        ≡ admitted
            (record { admin_id = admin.id; email = admin.email; is_superuser = admin.is_superuser })
  unfolding with_bearer decode_admin_jwt in_scope with_claims with_id with_admin
  decoded_token admin c now db sub scope u f d = simp (d, scope, sub, u, f)

  -- A token that `create_admin_jwt` has made for an account.
  admitted_by_token :
      (admin : AdminUser) (issued now : ℕ) (db : Db)
      → IsJwt libraries settings (claims_of settings admin.id issued)
      → libraries.uuid admin.id ≡ some admin.id
      → find_admin admin.id admins ≡ some admin
      → issued ≤ now
      → now < issued + settings.jwt_expire_minutes * 60
      → (enter now
          (bearer_header
            (create_admin_jwt libraries settings admins correlation_id admin.id issued))
          db).1
        ≡ admitted
            (record { admin_id = admin.id; email = admin.email; is_superuser = admin.is_superuser })
  unfolding get_current_admin create_admin_jwt
  admitted_by_token admin issued now db jwt u f h g =
      let c = claims_of settings admin.id issued in
      let (left, right) = jwt.trimmed in
      rw
        (presented-bearer_header (libraries.encode c settings.jwt_secret settings.jwt_algorithm)
          left right)
        (decoded_token admin c now db refl refl u f (jwt.valid now h g))

  -- From the expiry on the token is refused.
  refused_by_expiry :
      (subject : String) (issued now : ℕ) (db : Db)
      → IsJwt libraries settings (claims_of settings subject issued)
      → issued + settings.jwt_expire_minutes * 60 ≤ now
      → (enter now
          (bearer_header (create_admin_jwt libraries settings admins correlation_id subject issued))
          db).1
        ≡ refused "Invalid or expired admin token."
  unfolding get_current_admin create_admin_jwt with_bearer decode_admin_jwt in_scope with_claims
  refused_by_expiry subject issued now db jwt h =
      let c = claims_of settings subject issued in
      let (left, right) = jwt.trimmed in
      rw
        (presented-bearer_header (libraries.encode c settings.jwt_secret settings.jwt_algorithm)
          left right)
        (simp (jwt.expired now h))

  -- A token that lets its admin in until it expires, and nobody from then on.
  pub record IsSession (admin : AdminUser) (issued : ℕ) (db : Db) (r : Db × LoginReply)
      : Type 0 where
    pub response : TokenResponse
    pub answered : r ≡ (record db { context = no_context }, token response)
    pub lets_in :
        (now : ℕ) (later : Db)
        → issued ≤ now
        → now < issued + response.expires_in_minutes * 60
        → (enter now (bearer_header response.access_token) later).1
          ≡ admitted (record {
            admin_id = admin.id;
            email = admin.email;
            is_superuser = admin.is_superuser;
          })
    pub expires :
        (now : ℕ) (later : Db)
        → issued + response.expires_in_minutes * 60 ≤ now
        → (enter now (bearer_header response.access_token) later).1
          ≡ refused "Invalid or expired admin token."

  -- A wrong password, or an unknown email: one answer, and one event with the email; or a crash, if the
  -- event's correlation id is too long.
  abbrev pub IsRejected : String → Db → Db × LoginReply → Type 0
  IsRejected email db r = r ≡ (
      if storable correlation_id
      then (
        record db {
          audit_log =
              db.audit_log
              ++ record {
                tenant_id = none;
                event_type = "admin.login_failure";
                correlation_id = correlation_id;
                detail = object (field "email" (str email) nil);
              }
                ∷ [];
          context = no_context;
        },
        rejected,
      )
      else (record db { refused = true; context = no_context }, crashed))

  login_failure-IsRejected :
      (email : String) (db : Db) (context : RlsContext)
      → IsRejected email db (
          login_failure libraries settings admins correlation_id email
            (record db { context = context }))
  unfolding login_failure
  login_failure-IsRejected email db context = elim (Bool-cases (storable correlation_id)) [
    | inl short ↦
        simp short (
          ap (λ d. (d, rejected)) (write_audit_event_lem _ (record db { context = context }) short))
    | inr long ↦ simp long (
        ap (λ d. (d, crashed)) (write_audit_event-refused _ (record db { context = context }) long))
  ]

  -- What the password of an account makes of a login.
  abbrev pub IsVerified : String → ℕ → Db → Db × LoginReply → AdminUser → Verification → Type 0
  IsVerified email issued db r admin matches = IsSession admin issued db r
  IsVerified email issued db r admin mismatch = IsRejected email db r
  IsVerified email issued db r admin broken = r ≡ (record db { context = no_context }, crashed)

  abbrev pub IsLogin : String → String → ℕ → Db → Db × LoginReply → Option AdminUser → Type 0
  IsLogin email password issued db r none = IsRejected email db r
  IsLogin email password issued db r (some admin) =
      IsVerified email issued db r admin (libraries.verify admin.hashed_password password)

  -- The account's id is a UUID that finds it, and PyJWT keeps its contract for the token.
  abbrev pub IsKnown : ℕ → Option AdminUser → Type 0
  IsKnown issued none = Unit
  IsKnown issued (some admin) =
      IsJwt libraries settings (claims_of settings admin.id issued)
      × (libraries.uuid admin.id ≡ some admin.id)
      × (find_admin admin.id admins ≡ some admin)

  verified-IsVerified :
      (email : String) (issued : ℕ) (db : Db) (admin : AdminUser) (v : Verification)
      → IsKnown issued (some admin)
      → IsVerified email issued db
          (verified libraries settings admins correlation_id email admin issued v
            (set_rls_context none true db))
          admin
          v
  unfolding verified set_rls_context commit
  verified-IsVerified email issued db admin mismatch known = login_failure-IsRejected email db _
  verified-IsVerified email issued db admin broken known = refl
  verified-IsVerified email issued db admin matches known = record {
    response = _;
    answered = refl;
    lets_in = λ now later h g. admitted_by_token admin issued now later known.0 known.1 known.2 h g;
    expires = λ now later h. refused_by_expiry admin.id issued now later known.0 h;
  }

  login_as-IsLogin :
      (email password : String) (issued : ℕ) (db : Db) (o : Option AdminUser)
      → IsKnown issued o
      → IsLogin email password issued db
          (login_as libraries settings admins correlation_id email password issued o
            (set_rls_context none true db))
          o
  unfolding login_as set_rls_context
  login_as-IsLogin email password issued db none known = login_failure-IsRejected email db _
  login_as-IsLogin email password issued db (some admin) known =
      verified-IsVerified email issued db admin (libraries.verify admin.hashed_password password)
        known

  -- A body whose email is refused, and a login with the address that the email is normalised to.
  abbrev pub IsAnswered : String → ℕ → Db → Db × LoginReply → Option String → Type 0
  IsAnswered password issued db r none = r ≡ (db, unprocessable)
  IsAnswered password issued db r (some address) =
      IsLogin address password issued db r (find_email address admins)

  abbrev pub IsKnownAt : ℕ → Option String → Type 0
  IsKnownAt issued none = Unit
  IsKnownAt issued (some address) = IsKnown issued (find_email address admins)

  login_at-IsAnswered :
      (o : Option String) (password : String) (issued : ℕ) (db : Db)
      → IsKnownAt issued o
      → IsAnswered password issued db
          (login_at libraries settings admins correlation_id o password issued db)
          o
  unfolding login_at
  login_at-IsAnswered none password issued db known = refl
  login_at-IsAnswered (some address) password issued db known =
      login_as-IsLogin address password issued db (find_email address admins) known

  -- A login whose email is no valid address is answered with status 422 and writes nothing; every other
  -- goes by the normalised address. One with an unknown address and one with a wrong password have the
  -- same answer, "Invalid email or password.", and write the same single event
  -- "admin.login_failure", with the address; if the client's correlation id has more than 64
  -- characters, both crash instead and write nothing. One with the password of an account answers with a
  -- token and writes nothing: the token lets that account in from now until it expires, and is
  -- refused as expired from then on. If argon2 raises something else, the request crashes. (For the
  -- account that the address finds, PyJWT keeps its contract for its token, and its id is a UUID
  -- that finds it.)
  pub login-IsLogin :
      (email password : String) (issued : ℕ) (db : Db)
      → IsKnownAt issued (libraries.validate_email email)
      → IsAnswered password issued db
          (login libraries settings admins correlation_id email password issued db)
          (libraries.validate_email email)
  unfolding login
  login-IsLogin email password issued db known =
      login_at-IsAnswered (libraries.validate_email email) password issued db known

  -- The account that the email finds, and its password.
  pub login-IsSession :
      (email password : String) (issued : ℕ) (db : Db) (admin : AdminUser)
      → libraries.validate_email email ≡ some email
      → find_email email admins ≡ some admin
      → libraries.verify admin.hashed_password password ≡ matches
      → IsKnown issued (some admin)
      → IsSession admin issued db
          (login libraries settings admins correlation_id email password issued db)
  unfolding login login_at login_as
  login-IsSession email password issued db admin n e v known =
      simp (n, e, v) (verified-IsVerified email issued db admin matches known)
