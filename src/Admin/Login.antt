-- ===== src/Admin/Login.antt =====
-- src/aegis_gateway/middleware/admin_auth.py (`get_current_admin`), `login` of api/admin.py, and
-- `verify_password`, `create_admin_jwt`, `decode_admin_jwt` of core/security.py. PyJWT, argon2 and the parsing of
-- a UUID are arguments. Times are in seconds; a header is a list of code points below 256.
pub mod Laws
pub mod Sessions
use aegis_gateway.Prelude.{
  ℕ, ◌+◌, ◌*◌, String, Bool, true, false, Option, none, some, List, [], ◌∷◌, ◌≟◌, if◌then◌else◌,
}
use aegis_gateway.ProviderError.{HttpException, unauthorized_error}
use aegis_gateway.Json.{str, nil, field}
use aegis_gateway.Database.{Db, object, set_rls_context, commit, storable, write_audit_event}
use aegis_gateway.Authentication.{presented}

pub record AdminUser : Type 0 where
  pub id : String
  pub email : String
  pub hashed_password : String
  pub is_superuser : Bool

pub record AdminContext : Type 0 where
  pub admin_id : String
  pub email : String
  pub is_superuser : Bool

-- The payload of a token; the two keys that the code looks up may be missing.
pub record Claims : Type 0 where
  pub sub : Option String
  pub iat : ℕ
  pub exp : ℕ
  pub scope : Option String

-- What `PasswordHasher.verify` does: returns True, raises `VerifyMismatchError`, or raises something else.
pub data Verification : Type 0 where
  matches mismatch broken : Verification

-- `encode payload secret algorithm`, `decode token secret algorithm` at a time, none for a `PyJWTError`, `verify`,
-- `uuid.UUID`, none for a `ValueError`, and the validation of an `EmailStr`, which gives the normalised address
-- or refuses the body.
pub record Libraries : Type 0 where
  pub encode : Claims → String → String → List ℕ
  pub decode : ℕ → List ℕ → String → String → Option Claims
  pub verify : String → String → Verification
  pub uuid : String → Option String
  pub validate_email : String → Option String

pub record Settings : Type 0 where
  pub jwt_secret : String
  pub jwt_algorithm : String
  pub jwt_expire_minutes : ℕ

pub record TokenResponse : Type 0 where
  pub access_token : List ℕ
  pub expires_in_minutes : ℕ

pub data LoginReply : Type 0 where
  token : TokenResponse → LoginReply
  unauthorized : HttpException → LoginReply
  unprocessable crashed : LoginReply

-- Status 401 with a detail, or the admin.
pub data AdminReply : Type 0 where
  refused : String → AdminReply
  admitted : AdminContext → AdminReply

unfoldable pub find_email : String → List AdminUser → Option AdminUser
find_email email [] = none
find_email email (a ∷ admins) =
    let rest = find_email email admins in if a.email ≟ email then some a else rest

unfoldable pub find_admin : String → List AdminUser → Option AdminUser
find_admin id [] = none
find_admin id (a ∷ admins) = let rest = find_admin id admins in if a.id ≟ id then some a else rest

-- The payload of `create_admin_jwt`.
abbrev pub claims_of : Settings → String → ℕ → Claims
claims_of settings subject now = record {
  sub = some subject;
  iat = now;
  exp = now + settings.jwt_expire_minutes * 60;
  scope = some "admin";
}

-- `payload.get("scope") == "admin"`
abbrev pub is_admin_scope : Option String → Bool
is_admin_scope none = false
is_admin_scope (some scope) = scope ≟ "admin"

module _ (libraries : Libraries) (settings : Settings) (admins : List AdminUser)
    (correlation_id : Option String) where
  unfoldable pub create_admin_jwt : String → ℕ → List ℕ
  create_admin_jwt subject now =
      libraries.encode (claims_of settings subject now) settings.jwt_secret settings.jwt_algorithm

  unfoldable pub in_scope : Option Claims → Option Claims
  in_scope none = none
  in_scope (some payload) = if is_admin_scope payload.scope then some payload else none

  unfoldable pub decode_admin_jwt : ℕ → List ℕ → Option Claims
  decode_admin_jwt now t =
      in_scope (libraries.decode now t settings.jwt_secret settings.jwt_algorithm)

  -- An event that the database refuses raises another exception than the handler's own.
  unfoldable pub login_failure : String → Db → Db × LoginReply
  login_failure email db = (
    write_audit_event
        (record {
          tenant_id = none;
          event_type = "admin.login_failure";
          correlation_id = correlation_id;
          detail = object (field "email" (str email) nil);
        })
        db,
    (if storable correlation_id
        then unauthorized (unauthorized_error "Invalid email or password.")
        else crashed),
  )

  unfoldable pub verified : String → AdminUser → ℕ → Verification → Db → Db × LoginReply
  verified email admin now mismatch db = login_failure email db
  verified email admin now broken db = (commit db, crashed)
  verified email admin now matches db = (
    commit db,
    token (record {
      access_token = create_admin_jwt admin.id now;
      expires_in_minutes = settings.jwt_expire_minutes;
    }),
  )

  unfoldable pub login_as : String → String → ℕ → Option AdminUser → Db → Db × LoginReply
  login_as email password now none db = login_failure email db
  login_as email password now (some admin) db =
      verified email admin now (libraries.verify admin.hashed_password password) db

  -- The body is validated before the handler runs: a refused address is answered with status 422.
  unfoldable pub login_at : Option String → String → ℕ → Db → Db × LoginReply
  login_at none password now db = (db, unprocessable)
  login_at (some address) password now db =
      login_as address password now (find_email address admins) (set_rls_context none true db)

  unfoldable pub login : String → String → ℕ → Db → Db × LoginReply
  login email password now db = login_at (libraries.validate_email email) password now db

  unfoldable pub with_admin : Option AdminUser → Db → Db × AdminReply
  with_admin none db = (db, refused "Admin account no longer exists.")
  with_admin (some admin) db = (
    db,
    admitted
        (record { admin_id = admin.id; email = admin.email; is_superuser = admin.is_superuser }),
  )

  unfoldable pub with_id : Option String → Db → Db × AdminReply
  with_id none db = (db, refused "Malformed admin token.")
  with_id (some admin_id) db =
      with_admin (find_admin admin_id admins) (set_rls_context none true db)

  -- `payload["sub"]`
  unfoldable pub with_claims : Option Claims → Db → Db × AdminReply
  with_claims none db = (db, refused "Invalid or expired admin token.")
  with_claims (some payload) db = elim payload.sub [
    | none ↦ with_id none db
    | some sub ↦ with_id (libraries.uuid sub) db
  ]

  unfoldable pub with_bearer : ℕ → Option (List ℕ) → Db → Db × AdminReply
  with_bearer now none db = (db, refused "Missing bearer token.")
  with_bearer now (some t) db = with_claims (decode_admin_jwt now t) db

  -- It answers with the session's context set: the handler behind it goes on in the same session.
  unfoldable pub get_current_admin : ℕ → List ℕ → Db → Db × AdminReply
  get_current_admin now auth_header db = with_bearer now (presented auth_header) db
