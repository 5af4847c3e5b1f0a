-- ===== src/Migrations/SecurityPolicy.antt =====
-- `upgrade` and `downgrade` of alembic/versions/0003_tenant_security_policy.py.
use aegis_gateway.Prelude.{List, [], ◌∷◌}
use aegis_gateway.Migrations.{
  boolean, float_, string, required_with, Statement, add_column, drop_column, create_check,
  drop_check,
}

unfoldable pub upgrade : List Statement
upgrade =
    add_column "tenants" (required_with "pii_redaction_enabled" boolean "true")
    ∷ add_column "tenants" (required_with "injection_detection_enabled" boolean "true")
    ∷ add_column "tenants" (required_with "injection_detection_threshold" float_ "0.75")
    ∷ add_column "tenants" (required_with "injection_detection_mode" (string 16) "block")
    ∷ create_check "tenants" (record {
      name = "ck_tenants_injection_detection_mode";
      columns = "injection_detection_mode" ∷ [];
      condition = "injection_detection_mode IN ('block', 'log')";
    })
    ∷ []

unfoldable pub downgrade : List Statement
downgrade =
    drop_check "tenants" "ck_tenants_injection_detection_mode"
    ∷ drop_column "tenants" "injection_detection_mode"
    ∷ drop_column "tenants" "injection_detection_threshold"
    ∷ drop_column "tenants" "injection_detection_enabled"
    ∷ drop_column "tenants" "pii_redaction_enabled"
    ∷ []
