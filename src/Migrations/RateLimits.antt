-- ===== src/Migrations/RateLimits.antt =====
-- `upgrade` and `downgrade` of alembic/versions/0002_tenant_rate_limits.py.
use aegis_gateway.Prelude.{List, [], ◌∷◌}
use aegis_gateway.Migrations.{integer, required_with, Statement, add_column, drop_column}

unfoldable pub upgrade : List Statement
upgrade =
    add_column "tenants" (required_with "rate_limit_rpm" integer "60")
    ∷ add_column "tenants" (required_with "rate_limit_tpm" integer "100000")
    ∷ add_column "tenants" (required_with "max_concurrent_requests" integer "5")
    ∷ []

unfoldable pub downgrade : List Statement
downgrade =
    drop_column "tenants" "max_concurrent_requests"
    ∷ drop_column "tenants" "rate_limit_tpm"
    ∷ drop_column "tenants" "rate_limit_rpm"
    ∷ []
