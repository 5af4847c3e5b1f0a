-- ===== src/Migrations/Described.antt =====
-- The schema at each revision, written out: what the migrations are to build on top of a database
-- that has none of their tables and not their role.
use aegis_gateway.Prelude.{true, false, Option, none, some, List, [], ◌∷◌, ◌++◌, String, All, ◌≡◌}
use aegis_gateway.Migrations.{
  boolean, integer, float_, string, Column, required_with, Constraint, Unique, Index, Table,
  Privilege, select, insert, update, connect, usage, Object, table, public_schema, current_database,
  Grant, Schema,
}
use aegis_gateway.Migrations.Execution.{
  defines, indexed, referenced, granted_to, granted_on, has_role,
}
use aegis_gateway.Migrations.Common.{app_role, index_on, unique_index, isolation}
use aegis_gateway.Migrations.Initial
use aegis_gateway.Migrations.UsageTracking
use aegis_gateway.Migrations.Versions.{Revision, r0001, r0002, r0003, r0004, r0005}

-- A table without a policy, and one with the tenants' isolation.
abbrev pub open_table : String → List Column → List Constraint → List Index → Table
open_table name columns checks indexes = record {
  name = name;
  columns = columns;
  checks = checks;
  uniques = [];
  indexes = indexes;
  row_security = false;
  policies = [];
}

abbrev pub tenant_table : String → List Column → List Constraint → List Unique → List Index → Table
tenant_table name columns checks uniques indexes = record {
  name = name;
  columns = columns;
  checks = checks;
  uniques = uniques;
  indexes = indexes;
  row_security = true;
  policies = isolation ∷ [];
}

-- The columns that 0002, 0003 and 0004 add to `tenants`.
abbrev pub rate_limits : List Column
rate_limits =
    required_with "rate_limit_rpm" integer "60"
    ∷ required_with "rate_limit_tpm" integer "100000"
    ∷ required_with "max_concurrent_requests" integer "5"
    ∷ []

abbrev pub security_policy : List Column
security_policy =
    required_with "pii_redaction_enabled" boolean "true"
    ∷ required_with "injection_detection_enabled" boolean "true"
    ∷ required_with "injection_detection_threshold" float_ "0.75"
    ∷ required_with "injection_detection_mode" (string 16) "block"
    ∷ []

abbrev pub cache_toggle : List Column
cache_toggle = required_with "cache_enabled" boolean "true" ∷ []

abbrev pub mode_check : Constraint
mode_check = record {
  name = "ck_tenants_injection_detection_mode";
  columns = "injection_detection_mode" ∷ [];
  condition = "injection_detection_mode IN ('block', 'log')";
}

abbrev pub tenants_table : List Column → List Constraint → Table
tenants_table added checks =
    open_table "tenants" (Initial.tenants ++ added) checks
      (index_on "ix_tenants_name" ("name" ∷ []) ∷ [])

abbrev pub api_keys_table : Table
api_keys_table = tenant_table "api_keys" Initial.api_keys [] [] (
    index_on "ix_api_keys_tenant_id" ("tenant_id" ∷ [])
    ∷ unique_index "ix_api_keys_key_id" ("key_id" ∷ [])
    ∷ [])

abbrev pub admin_users_table : Table
admin_users_table =
    open_table "admin_users" Initial.admin_users []
      (unique_index "ix_admin_users_email" ("email" ∷ []) ∷ [])

abbrev pub audit_log_table : Table
audit_log_table = tenant_table "audit_log" Initial.audit_log [] [] (
    index_on "ix_audit_log_tenant_id" ("tenant_id" ∷ [])
    ∷ index_on "ix_audit_log_event_type" ("event_type" ∷ [])
    ∷ [])

abbrev pub usage_records_table : Table
usage_records_table = tenant_table "usage_records" UsageTracking.usage_records [] [] (
    index_on "ix_usage_records_tenant_id" ("tenant_id" ∷ [])
    ∷ index_on "ix_usage_records_tenant_created" ("tenant_id" ∷ "created_at" ∷ [])
    ∷ [])

abbrev pub usage_rollups_table : Table
usage_rollups_table =
    tenant_table "usage_rollups" UsageTracking.usage_rollups (UsageTracking.period_check ∷ [])
      (UsageTracking.period_unique ∷ [])
      (index_on "ix_usage_rollups_tenant_id" ("tenant_id" ∷ [])
        ∷ index_on "ix_usage_rollups_period_start" ("period_start" ∷ [])
        ∷ [])

abbrev pub to_app : Object → List Privilege → Grant
to_app object privileges = record { role = app_role; object = object; privileges = privileges }

-- The grants of 0001 and of 0005, the newest first.
abbrev pub identity_grants : List Grant → List Grant
identity_grants grants =
    to_app (table "audit_log") (select ∷ insert ∷ [])
    ∷ to_app (table "admin_users") (select ∷ update ∷ [])
    ∷ to_app (table "api_keys") (select ∷ insert ∷ update ∷ [])
    ∷ to_app (table "tenants") (select ∷ insert ∷ update ∷ [])
    ∷ to_app public_schema (usage ∷ [])
    ∷ to_app current_database (connect ∷ [])
    ∷ grants

abbrev pub usage_grants : List Grant → List Grant
usage_grants grants =
    to_app (table "usage_rollups") (select ∷ insert ∷ update ∷ [])
    ∷ to_app (table "usage_records") (select ∷ insert ∷ [])
    ∷ identity_grants grants

-- The schema of 0001 to 0004, by the columns and checks that `tenants` has.
abbrev pub identity_schema : List Column → List Constraint → Schema → Schema
identity_schema added checks s = record {
  tables =
      audit_log_table ∷ admin_users_table ∷ api_keys_table ∷ tenants_table added checks ∷ s.tables;
  roles = app_role ∷ s.roles;
  grants = identity_grants s.grants;
}

abbrev pub full : List Column
full = rate_limits ++ security_policy ++ cache_toggle

unfoldable pub schema_at : Revision → Schema → Schema
schema_at r0001 s = identity_schema [] [] s
schema_at r0002 s = identity_schema rate_limits [] s
schema_at r0003 s = identity_schema (rate_limits ++ security_policy) (mode_check ∷ []) s
schema_at r0004 s = identity_schema full (mode_check ∷ []) s
schema_at r0005 s = record {
  tables =
      usage_rollups_table
      ∷ usage_records_table
      ∷ audit_log_table
      ∷ admin_users_table
      ∷ api_keys_table
      ∷ tenants_table full (mode_check ∷ [])
      ∷ s.tables;
  roles = app_role ∷ s.roles;
  grants = usage_grants s.grants;
}

-- Before the first revision: the database as it was.
abbrev pub schema_before : Option Revision → Schema → Schema
schema_before none s = s
schema_before (some r) s = schema_at r s

abbrev pub tables : List String
tables =
    "tenants" ∷ "api_keys" ∷ "admin_users" ∷ "audit_log" ∷ "usage_records" ∷ "usage_rollups" ∷ []

abbrev pub indexes : List String
indexes =
    "ix_tenants_name" ∷ "ix_api_keys_tenant_id" ∷ "ix_api_keys_key_id" ∷ "ix_admin_users_email"
    ∷ "ix_audit_log_tenant_id" ∷ "ix_audit_log_event_type" ∷ "ix_usage_records_tenant_id"
    ∷ "ix_usage_records_tenant_created" ∷ "ix_usage_rollups_tenant_id"
    ∷ "ix_usage_rollups_period_start" ∷ "uq_usage_rollups_period" ∷ []

-- The database has nothing of the tables' names, neither a table nor an index, nor foreign keys to or
-- grants on such tables; nothing of the indexes' names; and it does not have the role.
abbrev pub IsFresh : Schema → Type 0
IsFresh s =
    All
      (λ name.
        (defines name s.tables ≡ false)
        × (referenced name s.tables ≡ false)
        × (granted_on (table name) s.grants ≡ false)
        × (indexed name s.tables ≡ false))
      tables
    × (has_role app_role s.roles ≡ false)
    × (granted_to app_role s.grants ≡ false)
    × All (λ name. (defines name s.tables ≡ false) × (indexed name s.tables ≡ false)) indexes
