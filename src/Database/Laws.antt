-- ===== src/Database/Laws.antt =====
-- The row-level policy refuses none of the two writes, whatever context the session was in; a value that
-- is too long for its column is refused.
use aegis_gateway.Prelude.{◌≡◌, refl, true, false, [], ◌∷◌, ◌++◌, eq_iff}
use aegis_gateway.Database.{
  no_context, AuditLog, UsageRecord, Db, storable, usage_storable, write_audit_event, write_usage,
}

-- An audit event whose correlation id fits its column is appended, for any tenant or none, and nothing
-- else is written; the context is gone after it, so that a statement behind it runs under no tenant
-- and without the bypass.
pub write_audit_event_lem :
    (row : AuditLog) (db : Db)
    → storable row.correlation_id ≡ true
    → write_audit_event row db
      ≡ record db { audit_log = db.audit_log ++ row ∷ []; context = no_context }
unfolding write_audit_event
write_audit_event_lem row db fits = simp fits (refl)

-- One whose correlation id is too long is refused, and nothing is written.
pub write_audit_event-refused :
    (row : AuditLog) (db : Db)
    → storable row.correlation_id ≡ false
    → write_audit_event row db ≡ record db { refused = true; context = no_context }
unfolding write_audit_event
write_audit_event-refused row db long = simp long (refl)

-- Writing a usage record that fits appends it, since the policy admits it under its own tenant's
-- context; nothing else is written or refused, and the session is left without a context.
pub write_usage_lem :
    (row : UsageRecord) (db : Db)
    → usage_storable row.model row.correlation_id ≡ true
    → write_usage row db
      ≡ record db { usage_records = db.usage_records ++ row ∷ []; context = no_context }
unfolding write_usage
write_usage_lem row db fits = rw ((eq_iff row.tenant_id row.tenant_id).1 refl) (simp fits (refl))
