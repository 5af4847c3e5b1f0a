-- ===== src/Migrations/Models.antt =====
-- src/aegis_gateway/db/models.py: the columns that each mapped class declares. A column is NOT NULL
-- unless its annotation has `None`; defaults on the Python side are not the database's and are left
-- out.
use aegis_gateway.Prelude.{true, some, List, [], ◌∷◌, String}
use aegis_gateway.Migrations.{
  uuid, boolean, timestamptz, integer, float_, jsonb, string_array, string, numeric, set_null,
  Column, column, required, required_with, primary,
}
use aegis_gateway.Migrations.Common.{tenant_id_column}

-- A mapped class: its table's name and its columns.
pub record Model : Type 0 where
  pub tablename : String
  pub columns : List Column

abbrev pub mapped_created_at : Column
mapped_created_at = required_with "created_at" timestamptz "now()"

abbrev pub tenant_model : Model
tenant_model = record {
  tablename = "tenants";
  columns =
      primary
      ∷ record (required "name" (string 255)) { unique = true }
      ∷ required "monthly_budget_usd" (numeric 10 2)
      ∷ required "rate_limit_rpm" integer
      ∷ required "rate_limit_tpm" integer
      ∷ required "max_concurrent_requests" integer
      ∷ required "pii_redaction_enabled" boolean
      ∷ required "injection_detection_enabled" boolean
      ∷ required "injection_detection_threshold" float_
      ∷ required "injection_detection_mode" (string 16)
      ∷ required "cache_enabled" boolean
      ∷ required "is_active" boolean
      ∷ mapped_created_at
      ∷ [];
}

abbrev pub api_key_model : Model
api_key_model = record {
  tablename = "api_keys";
  columns =
      primary
      ∷ tenant_id_column
      ∷ record (required "key_id" (string 16)) { unique = true }
      ∷ required "hashed_secret" (string 64)
      ∷ required "name" (string 255)
      ∷ required "scopes" string_array
      ∷ mapped_created_at
      ∷ column "revoked_at" timestamptz
      ∷ column "last_used_at" timestamptz
      ∷ [];
}

abbrev pub admin_user_model : Model
admin_user_model = record {
  tablename = "admin_users";
  columns =
      primary
      ∷ record (required "email" (string 255)) { unique = true }
      ∷ required "hashed_password" (string 255)
      ∷ required "is_superuser" boolean
      ∷ mapped_created_at
      ∷ [];
}

abbrev pub audit_log_model : Model
audit_log_model = record {
  tablename = "audit_log";
  columns =
      primary
      ∷ record (column "tenant_id" uuid) { references = some ("tenants", set_null) }
      ∷ required "event_type" (string 64)
      ∷ column "correlation_id" (string 64)
      ∷ required "detail" jsonb
      ∷ mapped_created_at
      ∷ [];
}

abbrev pub usage_record_model : Model
usage_record_model = record {
  tablename = "usage_records";
  columns =
      primary
      ∷ tenant_id_column
      ∷ required "api_key_id" (string 16)
      ∷ required "provider" (string 32)
      ∷ required "model" (string 128)
      ∷ required "prompt_tokens" integer
      ∷ required "completion_tokens" integer
      ∷ required "total_tokens" integer
      ∷ required "cost_usd" (numeric 12 6)
      ∷ required "cache_hit" boolean
      ∷ column "correlation_id" (string 64)
      ∷ mapped_created_at
      ∷ [];
}

abbrev pub usage_rollup_model : Model
usage_rollup_model = record {
  tablename = "usage_rollups";
  columns =
      primary
      ∷ tenant_id_column
      ∷ required "period_type" (string 8)
      ∷ required "period_start" timestamptz
      ∷ required "request_count" integer
      ∷ required "cache_hit_count" integer
      ∷ required "prompt_tokens" integer
      ∷ required "completion_tokens" integer
      ∷ required "total_tokens" integer
      ∷ required "cost_usd" (numeric 12 6)
      ∷ mapped_created_at
      ∷ [];
}

abbrev pub models : List Model
models =
    tenant_model ∷ api_key_model ∷ admin_user_model ∷ audit_log_model ∷ usage_record_model
    ∷ usage_rollup_model ∷ []
