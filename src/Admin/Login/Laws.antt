-- ===== src/Admin/Login/Laws.antt =====
-- Who gets into the admin API.
use aegis_gateway.Prelude.{
  ℕ, String, true, Option, none, some, List, ◌≡◌, refl, ◌⊎◌, inl, inr, ap, eq_iff, Option-cases,
  Bool-cases, arith,
}
use aegis_gateway.Database.{RlsContext, Db, set_rls_context}
use aegis_gateway.Authentication.{presented}
use aegis_gateway.Admin.Login.{
  AdminUser, Claims, Libraries, Settings, AdminReply, refused, admitted, find_admin, is_admin_scope,
  in_scope, decode_admin_jwt, with_admin, with_id, with_claims, with_bearer, get_current_admin,
}

is_admin_scope-admin : (scope : Option String) → is_admin_scope scope ≡ true → scope ≡ some "admin"
is_admin_scope-admin none h = ground arith
is_admin_scope-admin (some scope) h = ap some ((eq_iff scope "admin").0 h)

module _ (libraries : Libraries) (settings : Settings) (admins : List AdminUser)
    (correlation_id : Option String) where
  abbrev enter : ℕ → List ℕ → Db → Db × AdminReply
  enter = get_current_admin libraries settings admins correlation_id

  -- The request has a token that decodes, is for admins, and names an account.
  pub record IsAdmitted (now : ℕ) (auth_header : List ℕ) (db : Db) (r : Db × AdminReply)
      : Type 0 where
    pub t : List ℕ
    pub claims : Claims
    pub sub : String
    pub id : String
    pub admin : AdminUser
    pub header : presented auth_header ≡ some t
    pub decoded : libraries.decode now t settings.jwt_secret settings.jwt_algorithm ≡ some claims
    pub scope : claims.scope ≡ some "admin"
    pub subject : claims.sub ≡ some sub
    pub parsed : libraries.uuid sub ≡ some id
    pub account : find_admin id admins ≡ some admin
    pub answered : r ≡ (
      set_rls_context none true db,
      admitted
          (record { admin_id = admin.id; email = admin.email; is_superuser = admin.is_superuser }),
    )

  pub record IsRefused (db : Db) (r : Db × AdminReply) : Type 0 where
    pub detail : String
    pub answered : r.1 ≡ refused detail
    pub log : r.0.audit_log ≡ db.audit_log
    pub usage : r.0.usage_records ≡ db.usage_records

  in_scope-cases :
      (claims : Claims)
      → (in_scope libraries settings admins correlation_id (some claims) ≡ none)
        ⊎ ((in_scope libraries settings admins correlation_id (some claims) ≡ some claims)
            × (claims.scope ≡ some "admin"))
  unfolding in_scope
  in_scope-cases claims = elim (Bool-cases (is_admin_scope claims.scope)) [
    | inl same_scope ↦ inr (simp same_scope, is_admin_scope-admin claims.scope same_scope)
    | inr other ↦ inl (simp other)
  ]

  module _ (now : ℕ) (auth_header : List ℕ) (db : Db) where
    abbrev IsDecided : Db × AdminReply → Type 0
    IsDecided r = IsRefused db r ⊎ IsAdmitted now auth_header db r

    no_admin :
        (detail : String) (context : RlsContext)
        → IsRefused db (record db { context = context }, refused detail)
    no_admin detail context = record { detail = detail; answered = refl; log = refl; usage = refl }

    refused_claims :
        (o : Option Claims)
        → o ≡ none
        → IsDecided (with_claims libraries settings admins correlation_id o db)
    unfolding with_claims
    refused_claims o e = rw e (inl (no_admin _ db.context))

    module _ (t : List ℕ) (header : presented auth_header ≡ some t) (claims : Claims)
        (decoded : libraries.decode now t settings.jwt_secret settings.jwt_algorithm ≡ some claims)
        (scope : claims.scope ≡ some "admin") where
      with_admin-IsDecided :
          (sub id : String) (o : Option AdminUser)
          → claims.sub ≡ some sub
          → libraries.uuid sub ≡ some id
          → find_admin id admins ≡ o
          → IsDecided
              (with_admin libraries settings admins correlation_id o (set_rls_context none true db))
      unfolding with_admin set_rls_context
      with_admin-IsDecided sub id none f g h = inl (no_admin _ _)
      with_admin-IsDecided sub id (some admin) f g h = inr (record {
        t = t;
        claims = claims;
        sub = sub;
        id = id;
        admin = admin;
        header = header;
        decoded = decoded;
        scope = scope;
        subject = f;
        parsed = g;
        account = h;
        answered = refl;
      })

      with_claims-IsDecided :
          IsDecided (with_claims libraries settings admins correlation_id (some claims) db)
      unfolding with_claims with_id
      with_claims-IsDecided = elim (Option-cases claims.sub) [
        | inl missing ↦ simp missing (inl (no_admin _ db.context))
        | inr (sub, f) ↦ elim (Option-cases (libraries.uuid sub)) [
          | inl malformed ↦ simp (f, malformed) (inl (no_admin _ db.context))
          | inr (id, g) ↦ simp (f, g) (with_admin-IsDecided sub id (find_admin id admins) f g refl)
        ]
      ]

    module _ (t : List ℕ) (header : presented auth_header ≡ some t) where
      in_scope-IsDecided :
          (claims : Claims)
          → libraries.decode now t settings.jwt_secret settings.jwt_algorithm ≡ some claims
          → IsDecided (
              with_claims libraries settings admins correlation_id
                (in_scope libraries settings admins correlation_id (some claims))
                db)
      in_scope-IsDecided claims decoded = elim (in_scope-cases claims) [
        | inl other ↦ refused_claims _ other
        | inr (same_scope, e) ↦ rw same_scope (with_claims-IsDecided t header claims decoded e)
      ]

      decoded-IsDecided :
          (o : Option Claims)
          → libraries.decode now t settings.jwt_secret settings.jwt_algorithm ≡ o
          → IsDecided (
              with_claims libraries settings admins correlation_id
                (in_scope libraries settings admins correlation_id o)
                db)
      unfolding in_scope
      decoded-IsDecided none e = refused_claims none refl
      decoded-IsDecided (some claims) e = in_scope-IsDecided claims e

      with_token-IsDecided : IsDecided (
          with_claims libraries settings admins correlation_id
            (decode_admin_jwt libraries settings admins correlation_id now t)
            db)
      unfolding decode_admin_jwt
      with_token-IsDecided = decoded-IsDecided _ refl

    with_bearer-IsDecided :
        (o : Option (List ℕ))
        → presented auth_header ≡ o
        → IsDecided (with_bearer libraries settings admins correlation_id now o db)
    unfolding with_bearer
    with_bearer-IsDecided none e = inl (no_admin _ db.context)
    with_bearer-IsDecided (some t) e = with_token-IsDecided t e

  -- Every request to the admin API is refused, with no row written, or it presented a token that
  -- decodes under the configured secret and algorithm, whose scope is "admin" and whose subject is
  -- the id of an existing account: then it gets that account, and the session's context has the
  -- bypass.
  pub get_current_admin_lem :
      (now : ℕ) (auth_header : List ℕ) (db : Db)
      → IsRefused db (enter now auth_header db)
        ⊎ IsAdmitted now auth_header db (enter now auth_header db)
  unfolding get_current_admin
  get_current_admin_lem now auth_header db =
      with_bearer-IsDecided now auth_header db (presented auth_header) refl
