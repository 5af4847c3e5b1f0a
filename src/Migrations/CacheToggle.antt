-- ===== src/Migrations/CacheToggle.antt =====
-- `upgrade` and `downgrade` of alembic/versions/0004_tenant_cache_toggle.py.
use aegis_gateway.Prelude.{List, [], ◌∷◌}
use aegis_gateway.Migrations.{boolean, required_with, Statement, add_column, drop_column}

unfoldable pub upgrade : List Statement
upgrade = add_column "tenants" (required_with "cache_enabled" boolean "true") ∷ []

unfoldable pub downgrade : List Statement
downgrade = drop_column "tenants" "cache_enabled" ∷ []
