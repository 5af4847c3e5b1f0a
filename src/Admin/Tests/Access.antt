-- ===== src/Admin/Tests/Access.antt =====
-- Lists and logins on concrete inputs.
use aegis_gateway.Prelude.{
  ℕ, String, Bool, true, Option, none, some, List, [], ◌∷◌, ◌≡◌, ◌⊎◌, inl, inr, refl, leb, ltb, ◌≟◌,
  if◌then◌else◌, arith, All, Bool-cases,
}
use aegis_gateway.CodePoints.{lstrip}
use aegis_gateway.Json.{nil}
use aegis_gateway.Database.{AuditLog, set_rls_context, tenant_isolation, object}
use aegis_gateway.Scenario.{trail}
use aegis_gateway.Admin.Tests.{plane}
use aegis_gateway.Admin.Reports.{Stored, Reports, OrderBy, list_tenant_audit_log}
use aegis_gateway.Admin.{begin}
use aegis_gateway.Admin.Reports.Ordered.{count, IsDescending, IsOrdering}
use aegis_gateway.Admin.Reports.Pages.{ArePages, reports-ArePages}
use aegis_gateway.Admin.Lifecycle.{bearer_header}
use aegis_gateway.Admin.Login.{
  AdminUser, claims_of, matches, mismatch, Libraries, Settings, find_email, find_admin, login,
  get_current_admin,
}
use aegis_gateway.Admin.Login.Laws.{IsRefused, IsAdmitted, get_current_admin_lem}
use aegis_gateway.Admin.Login.Sessions.{IsJwt, IsAnswered, login-IsLogin}

module _ {A : Type 0} (key : A → ℕ) where
  -- Insertion sort, newest first.
  abbrev insert : A → List A → List A
  insert a [] = a ∷ []
  insert a (b ∷ rows) =
      let rest = insert a rows in if leb (key b) (key a) then a ∷ b ∷ rows else b ∷ rest

  abbrev sort : List A → List A
  sort [] = []
  sort (a ∷ rows) = insert a (sort rows)

  count-insert :
      (test : A → Bool) (a : A) (rows : List A) → count test (insert a rows) ≡ count test (a ∷ rows)
  count-insert test a [] = refl
  count-insert test a (b ∷ rows) = ground (arith, count-insert test a rows)

  count-sort : (test : A → Bool) (rows : List A) → count test (sort rows) ≡ count test rows
  count-sort test [] = refl
  count-sort test (a ∷ rows) = ground (arith, count-insert test a (sort rows), count-sort test rows)

  All-weaken :
      (x y : ℕ) (rows : List A)
      → leb x y ≡ true
      → All (λ b. leb (key b) x ≡ true) rows
      → All (λ b. leb (key b) y ≡ true) rows
  All-weaken x y [] h g = tt
  All-weaken x y (b ∷ rows) h g = (ground arith, All-weaken x y rows h g.1)

  All-insert :
      (x : ℕ) (a : A) (rows : List A)
      → leb (key a) x ≡ true
      → All (λ b. leb (key b) x ≡ true) rows
      → All (λ b. leb (key b) x ≡ true) (insert a rows)
  All-insert x a [] h g = (h, tt)
  All-insert x a (b ∷ rows) h g = elim (Bool-cases (leb (key b) (key a))) [
    | inl le ↦ simp le (h, g)
    | inr gt ↦ simp gt (g.0, All-insert x a rows h g.1)
  ]

  IsDescending-insert :
      (a : A) (rows : List A) → IsDescending key rows → IsDescending key (insert a rows)
  IsDescending-insert a [] d = (tt, tt)
  IsDescending-insert a (b ∷ rows) d = elim (Bool-cases (leb (key b) (key a))) [
    | inl le ↦ simp le ((refl, All-weaken (key b) (key a) rows le d.0), d)
    | inr gt ↦
        simp gt (All-insert (key b) a rows (ground arith) d.0, IsDescending-insert a rows d.1)
  ]

  IsDescending-sort : (rows : List A) → IsDescending key (sort rows)
  IsDescending-sort [] = tt
  IsDescending-sort (a ∷ rows) = IsDescending-insert a (sort rows) (IsDescending-sort rows)

abbrev database : OrderBy
database = record { order_by_desc = λ key rows. sort key rows }

database-IsOrdering : IsOrdering database
database-IsOrdering = record {
  descending = λ key rows. IsDescending-sort key rows;
  same_rows = λ key rows test. count-sort key test rows;
}

abbrev event : Option String → ℕ → Stored AuditLog
event tenant_id at = record {
  row = record {
    tenant_id = tenant_id;
    event_type = "auth.failure";
    correlation_id = none;
    detail = object nil;
  };
  created_at = at;
}

abbrev reports : Reports
reports = record {
  usage_records = [];
  usage_rollups = [];
  audit_log = event none 3 ∷ event (some "t1") 7 ∷ event (some "t1") 5 ∷ [];
}

-- The latest two events of a tenant.
latest_two :
    (list_tenant_audit_log database "t1" none 2 reports plane).1
    ≡ event (some "t1") 7 ∷ event (some "t1") 5 ∷ []
unfolding list_tenant_audit_log begin set_rls_context tenant_isolation
latest_two = refl

reports-ArePages_example : ArePages database reports plane
reports-ArePages_example = reports-ArePages database reports plane database-IsOrdering

abbrev admin : AdminUser
admin = record { id = "u1"; email = "a@b.org"; hashed_password = "hash"; is_superuser = true }

abbrev pub settings : Settings
settings = record { jwt_secret = "secret"; jwt_algorithm = "HS256"; jwt_expire_minutes = 60 }

-- One account with one token, issued at time 5.
abbrev pub libraries : Libraries
libraries = record {
  encode = λ c secret algorithm. b'x' ∷ [];
  decode =
      λ now t secret algorithm. if ltb now 3_605 then some (claims_of settings "u1" 5) else none;
  verify = λ hash password. if password ≟ "pw" then matches else mismatch;
  uuid = λ s. some s;
  validate_email = λ s. some s;
}

get_current_admin_lem_example :
    IsRefused libraries settings (admin ∷ []) none trail.db (
      get_current_admin libraries settings (admin ∷ []) none 9 (bearer_header (b'x' ∷ [])) trail.db)
    ⊎ IsAdmitted libraries settings (admin ∷ []) none 9 (bearer_header (b'x' ∷ [])) trail.db (
        get_current_admin libraries settings
          (admin ∷ [])
          none
          9
          (bearer_header (b'x' ∷ []))
          trail.db)
get_current_admin_lem_example =
    get_current_admin_lem libraries settings (admin ∷ []) none 9 (bearer_header (b'x' ∷ []))
      trail.db

pub libraries-IsJwt : IsJwt libraries settings (claims_of settings "u1" 5)
unfolding lstrip
libraries-IsJwt = record {
  valid = λ now h g. ground arith;
  expired = λ now h. ground arith;
  trimmed = (refl, refl);
}

login-IsLogin_example :
    IsAnswered libraries settings
      (admin ∷ [])
      none
      "pw"
      5
      trail.db
      (login libraries settings (admin ∷ []) none "a@b.org" "pw" 5 trail.db)
      (some "a@b.org")
unfolding find_email find_admin
login-IsLogin_example =
    login-IsLogin libraries settings (admin ∷ []) none "a@b.org" "pw" 5 trail.db
      (libraries-IsJwt, refl, refl)
