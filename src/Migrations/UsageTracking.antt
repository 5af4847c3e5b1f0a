-- ===== src/Migrations/UsageTracking.antt =====
-- `upgrade` and `downgrade` of alembic/versions/0005_usage_tracking.py.
use aegis_gateway.Prelude.{List, [], ◌∷◌, ◌++◌}
use aegis_gateway.Migrations.{
  boolean, timestamptz, integer, string, numeric, Column, column, required, required_with, primary,
  created_at, Constraint, Unique, select, insert, update, table, Statement, create_table,
  drop_table, create_index, grant, revoke_all,
}
use aegis_gateway.Migrations.Common.{app_role, tenant_id_column, index_on, isolate, expose}

abbrev pub usage_records : List Column
usage_records =
    primary
    ∷ tenant_id_column
    ∷ required "api_key_id" (string 16)
    ∷ required "provider" (string 32)
    ∷ required "model" (string 128)
    ∷ required "prompt_tokens" integer
    ∷ required "completion_tokens" integer
    ∷ required "total_tokens" integer
    ∷ required "cost_usd" (numeric 12 6)
    ∷ required_with "cache_hit" boolean "false"
    ∷ column "correlation_id" (string 64)
    ∷ created_at
    ∷ []

abbrev pub usage_rollups : List Column
usage_rollups =
    primary
    ∷ tenant_id_column
    ∷ required "period_type" (string 8)
    ∷ required "period_start" timestamptz
    ∷ required "request_count" integer
    ∷ required "cache_hit_count" integer
    ∷ required "prompt_tokens" integer
    ∷ required "completion_tokens" integer
    ∷ required "total_tokens" integer
    ∷ required "cost_usd" (numeric 12 6)
    ∷ created_at
    ∷ []

abbrev pub period_check : Constraint
period_check = record {
  name = "ck_usage_rollups_period_type";
  columns = "period_type" ∷ [];
  condition = "period_type IN ('hourly', 'daily')";
}

abbrev pub period_unique : Unique
period_unique = record {
  name = "uq_usage_rollups_period";
  columns = "tenant_id" ∷ "period_type" ∷ "period_start" ∷ [];
}

unfoldable pub upgrade : List Statement
upgrade =
    (create_table "usage_records" usage_records [] []
      ∷ create_index "usage_records" (index_on "ix_usage_records_tenant_id" ("tenant_id" ∷ []))
      ∷ create_index "usage_records"
          (index_on "ix_usage_records_tenant_created" ("tenant_id" ∷ "created_at" ∷ []))
      ∷ create_table "usage_rollups" usage_rollups (period_check ∷ []) (period_unique ∷ [])
      ∷ create_index "usage_rollups" (index_on "ix_usage_rollups_tenant_id" ("tenant_id" ∷ []))
      ∷ create_index "usage_rollups"
          (index_on "ix_usage_rollups_period_start" ("period_start" ∷ []))
      ∷ grant app_role (table "usage_records") (select ∷ insert ∷ [])
      ∷ grant app_role (table "usage_rollups") (select ∷ insert ∷ update ∷ [])
      ∷ [])
    ++ isolate "usage_records"
    ++ isolate "usage_rollups"

unfoldable pub downgrade : List Statement
downgrade =
    expose "usage_records"
    ++ expose "usage_rollups"
    ++ revoke_all app_role (table "usage_rollups")
      ∷ revoke_all app_role (table "usage_records")
      ∷ drop_table "usage_rollups"
      ∷ drop_table "usage_records"
      ∷ []
