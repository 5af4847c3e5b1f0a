-- ===== src/Database.antt =====
-- src/aegis_gateway/db/session.py, services/audit.py and services/usage.py, with the row-level policies
-- of alembic/versions/0001 and 0005: what the request's session writes, and under which context.
pub mod Laws
use aegis_gateway.Prelude.{
  ℕ, ◌+◌, ◌*◌, String, Bool, true, false, ◌||◌, Option, none, some, List, [], ◌∷◌, ◌++◌, ◌≟◌, ◌&&◌,
  leb, length, if◌then◌else◌,
}
use aegis_gateway.CodePoints.{codes}
use aegis_gateway.Context.{Mode}
use aegis_gateway.Json.{Fields}

-- `aegis.tenant_id` and `aegis.bypass_rls`, as `set_config(…, true)` sets them for one transaction.
pub record RlsContext : Type 0 where
  pub tenant_id : Option String
  pub bypass : Bool

-- Without a setting in the transaction both variables are empty.
abbrev pub no_context : RlsContext
no_context = record { tenant_id = none; bypass = false }

-- `tenant_id::text = current_setting('aegis.tenant_id', true)`; NULL equals nothing, and no id is "".
abbrev pub same_tenant : Option String → Option String → Bool
same_tenant (some t) (some u) = t ≟ u
same_tenant _ _ = false

-- The policy `tenant_isolation` of api_keys, audit_log, usage_records and usage_rollups.
unfoldable pub tenant_isolation : RlsContext → Option String → Bool
tenant_isolation c tenant_id = c.bypass || same_tenant tenant_id c.tenant_id

-- The `detail` of an event: categories and scores, or the object that the admin API writes.
pub data Detail : Type 0 where
  reason : String → Detail
  reason_key : String → String → Detail
  entity_types : List String → Detail
  injection : ℕ → Bool → Bool → Mode → Detail
  threshold : ℕ → ℕ → ℕ → Detail
  object : Fields → Detail

pub record AuditLog : Type 0 where
  pub tenant_id : Option String
  pub event_type : String
  pub correlation_id : Option String
  pub detail : Detail

pub record UsageRecord : Type 0 where
  pub tenant_id : String
  pub api_key_id : String
  pub provider : String
  pub model : String
  pub prompt_tokens : ℕ
  pub completion_tokens : ℕ
  pub total_tokens : ℕ
  pub cost_usd : ℕ
  pub cache_hit : Bool
  pub correlation_id : Option String

-- The session: its transaction's context, the tables, and whether a statement has been
-- refused, by a policy or for a value that is too long, which raises an exception in the code.
pub record Db : Type 0 where
  pub context : RlsContext
  pub audit_log : List AuditLog
  pub usage_records : List UsageRecord
  pub refused : Bool

unfoldable pub set_rls_context : Option String → Bool → Db → Db
set_rls_context tenant_id bypass db = record db {
  context = record { tenant_id = tenant_id; bypass = bypass };
}

-- The transaction ends, and its settings with it.
unfoldable pub commit : Db → Db
commit db = record db { context = no_context }

-- A text of at most so many characters, as a `String(n)` column takes it.
abbrev pub at_most : ℕ → String → Bool
at_most n s = leb (length (codes s)) n

-- The column `correlation_id` is a `String(64)`.
unfoldable pub storable : Option String → Bool
storable none = true
storable (some id) = at_most 64 id

-- The event types are constants of at most 64 characters.
insert_audit : AuditLog → Db → Db
unfolding tenant_isolation storable
insert_audit row db =
    if tenant_isolation db.context row.tenant_id && storable row.correlation_id
    then record db { audit_log = db.audit_log ++ row ∷ [] }
    else record db { refused = true }

-- `model` is a `String(128)`; the key's id and the provider's name fit their columns, since the one comes
-- from a column of that length and the other is a constant.
unfoldable pub usage_storable : String → Option String → Bool
usage_storable model correlation_id = at_most 128 model && storable correlation_id

insert_usage : UsageRecord → Db → Db
unfolding tenant_isolation usage_storable
insert_usage row db =
    if tenant_isolation db.context (some row.tenant_id)
      && usage_storable row.model row.correlation_id
    then record db { usage_records = db.usage_records ++ row ∷ [] }
    else record db { refused = true }

-- An exception ends the transaction, too.
unfoldable pub write_audit_event : AuditLog → Db → Db
unfolding set_rls_context insert_audit commit
write_audit_event row db = commit (insert_audit row (set_rls_context none true db))

-- The part of `record_usage` that is in the database.
unfoldable pub write_usage : UsageRecord → Db → Db
unfolding set_rls_context insert_usage commit
write_usage row db = commit (insert_usage row (set_rls_context (some row.tenant_id) false db))
