-- ===== src/Admin/Requests/Trail.antt =====
-- What a request to the admin API leaves in the audit log.
use aegis_gateway.Prelude.{String, Bool, true, [], ◌∷◌, ◌++◌, ◌≡◌, refl, ◌⊎◌, inl, inr}
use aegis_gateway.Database.{AuditLog, no_context, commit}
use aegis_gateway.Admin.{Plane, Tools, By, close}
use aegis_gateway.Admin.Requests.{Request, create, patch, issue, revoke, handle}
use aegis_gateway.Admin.Requests.Steps.{
  Names, Step, failed, created, changed, issued_to, revoked_now, revoked_before, handle-Step,
}

abbrev pub event_type_of : Request → String
event_type_of (create id now payload) = "admin.tenant_created"
event_type_of (patch id payload) = "admin.tenant_updated"
event_type_of (issue id name now generated) = "admin.api_key_issued"
event_type_of (revoke id key_id now) = "admin.api_key_revoked"

-- The tables and the log stay as they were.
pub record IsUnchanged (p q : Plane) : Type 0 where
  pub tenants : q.tenants ≡ p.tenants
  pub api_keys : q.api_keys ≡ p.api_keys
  pub log : q.db ≡ record p.db { context = no_context }

-- One event is appended, for the admin, the request and what it does; nothing else of the session changes.
pub record IsLogged (by : By) (r : Request) (p : Plane) (q : Plane × Bool) : Type 0 where
  pub succeeded : q.1 ≡ true
  pub tenant_id : String
  pub event : AuditLog
  pub named : Names by tenant_id (event_type_of r) event
  pub appended :
      q.0.db ≡ record p.db { audit_log = p.db.audit_log ++ event ∷ []; context = no_context }

step-IsLogged :
    (tools : Tools) (by : By) (p : Plane) (r : Request) (q : Plane × Bool)
    → Step tools by p r q
    → IsUnchanged p q.0 ⊎ IsLogged by r p q
unfolding close commit
step-IsLogged tools by p _ _ (failed r) =
    inl (record { tenants = refl; api_keys = refl; log = refl })
step-IsLogged tools by p _ _ (created id now payload event named a b) =
    inr (record { succeeded = refl; tenant_id = _; event = event; named = named; appended = refl })
step-IsLogged tools by p _ _ (changed id payload t event named e free) =
    inr (record { succeeded = refl; tenant_id = _; event = event; named = named; appended = refl })
step-IsLogged tools by p _ _ (issued_to id name now key_id secret_part t event named e free) =
    inr (record { succeeded = refl; tenant_id = _; event = event; named = named; appended = refl })
step-IsLogged tools by p _ _ (revoked_now id key_id now k event named e valid) =
    inr (record { succeeded = refl; tenant_id = _; event = event; named = named; appended = refl })
step-IsLogged tools by p _ _ (revoked_before id key_id now k at e before) =
    inl (record { tenants = refl; api_keys = refl; log = refl })

-- A request leaves the two tables and the audit log as they were, or it succeeds and appends
-- exactly one event, of its own type, with the id of the admin, the correlation id of the request
-- and a tenant's id; no other row of the session changes.
pub handle-IsLogged :
    (tools : Tools) (by : By) (p : Plane) (r : Request)
    → IsUnchanged p (handle tools (by, r) p).0 ⊎ IsLogged by r p (handle tools (by, r) p)
handle-IsLogged tools by p r =
    step-IsLogged tools by p r (handle tools (by, r) p) (handle-Step tools by p r)
