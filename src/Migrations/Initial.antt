-- ===== src/Migrations/Initial.antt =====
-- `upgrade` and `downgrade` of alembic/versions/0001_initial_identity_schema.py. The role's
-- password is left out.
use aegis_gateway.Prelude.{true, some, List, [], ◌∷◌, ◌++◌}
use aegis_gateway.Migrations.{
  uuid, boolean, timestamptz, jsonb, string_array, string, numeric, set_null, Column, column,
  required, required_with, primary, created_at, select, insert, update, connect, usage, table,
  public_schema, current_database, Statement, create_table, drop_table, create_index, create_role,
  drop_role, grant, revoke_all,
}
use aegis_gateway.Migrations.Common.{
  app_role, tenant_id_column, index_on, unique_index, isolate, expose,
}

abbrev pub tenants : List Column
tenants =
    primary
    ∷ record (required "name" (string 255)) { unique = true }
    ∷ required_with "monthly_budget_usd" (numeric 10 2) "100.00"
    ∷ required_with "is_active" boolean "true"
    ∷ created_at
    ∷ []

abbrev pub api_keys : List Column
api_keys =
    primary
    ∷ tenant_id_column
    ∷ record (required "key_id" (string 16)) { unique = true }
    ∷ required "hashed_secret" (string 64)
    ∷ required "name" (string 255)
    ∷ required_with "scopes" string_array "{}"
    ∷ created_at
    ∷ column "revoked_at" timestamptz
    ∷ column "last_used_at" timestamptz
    ∷ []

abbrev pub admin_users : List Column
admin_users =
    primary
    ∷ record (required "email" (string 255)) { unique = true }
    ∷ required "hashed_password" (string 255)
    ∷ required_with "is_superuser" boolean "false"
    ∷ created_at
    ∷ []

abbrev pub audit_log : List Column
audit_log =
    primary
    ∷ record (column "tenant_id" uuid) { references = some ("tenants", set_null) }
    ∷ required "event_type" (string 64)
    ∷ column "correlation_id" (string 64)
    ∷ required_with "detail" jsonb "{}"
    ∷ created_at
    ∷ []

unfoldable pub upgrade : List Statement
upgrade =
    (create_table "tenants" tenants [] []
      ∷ create_index "tenants" (index_on "ix_tenants_name" ("name" ∷ []))
      ∷ create_table "api_keys" api_keys [] []
      ∷ create_index "api_keys" (index_on "ix_api_keys_tenant_id" ("tenant_id" ∷ []))
      ∷ create_index "api_keys" (unique_index "ix_api_keys_key_id" ("key_id" ∷ []))
      ∷ create_table "admin_users" admin_users [] []
      ∷ create_index "admin_users" (unique_index "ix_admin_users_email" ("email" ∷ []))
      ∷ create_table "audit_log" audit_log [] []
      ∷ create_index "audit_log" (index_on "ix_audit_log_tenant_id" ("tenant_id" ∷ []))
      ∷ create_index "audit_log" (index_on "ix_audit_log_event_type" ("event_type" ∷ []))
      ∷ create_role app_role
      ∷ grant app_role current_database (connect ∷ [])
      ∷ grant app_role public_schema (usage ∷ [])
      ∷ grant app_role (table "tenants") (select ∷ insert ∷ update ∷ [])
      ∷ grant app_role (table "api_keys") (select ∷ insert ∷ update ∷ [])
      ∷ grant app_role (table "admin_users") (select ∷ update ∷ [])
      ∷ grant app_role (table "audit_log") (select ∷ insert ∷ [])
      ∷ [])
    ++ isolate "api_keys"
    ++ isolate "audit_log"

unfoldable pub downgrade : List Statement
downgrade =
    expose "api_keys"
    ++ expose "audit_log"
    ++ revoke_all app_role (table "audit_log")
      ∷ revoke_all app_role (table "admin_users")
      ∷ revoke_all app_role (table "api_keys")
      ∷ revoke_all app_role (table "tenants")
      ∷ revoke_all app_role public_schema
      ∷ revoke_all app_role current_database
      ∷ drop_role app_role
      ∷ drop_table "audit_log"
      ∷ drop_table "admin_users"
      ∷ drop_table "api_keys"
      ∷ drop_table "tenants"
      ∷ []
