-- ===== src/Migrations/Tests.antt =====
-- The migrations on a database with one table and one role of its own.
use aegis_gateway.Prelude.{◌≡◌, true, false, not, ◌&&◌, some, [], ◌∷◌, All, length, ◌≟◌, arith}
use aegis_gateway.Database.{RlsContext}
use aegis_gateway.Migrations.{delete, insert, update, select, table, Schema, primary}
use aegis_gateway.Migrations.Execution.{
  run, and_then, defines, indexed, referenced, granted_to, granted_on, has_role,
}
use aegis_gateway.Migrations.Common.{app_role}
use aegis_gateway.Migrations.Versions.{
  r0003, r0005, down_revision, upgrade, downgrade, upgrade_head, downgrade_base,
}
use aegis_gateway.Migrations.Described.{schema_at, schema_before, IsFresh, tables}
use aegis_gateway.Migrations.Models.{models}
use aegis_gateway.Migrations.Laws.{upgrade_head_lem, upgrades_invert}
use aegis_gateway.Migrations.Access.{may, issued, least_privilege}
use aegis_gateway.Migrations.Rows.{
  owner, reads, inserts, updates, reached, not_inserted, append_only, app, find_table,
  tables-Isolated, columns_of, find_column, declared_as, same_null, models-Migrated,
}

abbrev other : Schema
other = record {
  tables =
      record {
        name = "reports";
        columns = primary ∷ [];
        checks = [];
        uniques = [];
        indexes = [];
        row_security = false;
        policies = [];
      }
      ∷ [];
  roles = "reader" ∷ [];
  grants = record { role = "reader"; object = table "reports"; privileges = select ∷ [] } ∷ [];
}

other-IsFresh : IsFresh other
unfolding defines indexed referenced granted_to granted_on has_role
other-IsFresh = ground arith

upgrades_invert_example :
    (upgrade_head other ≡ some (schema_at r0005 other))
    × (and_then downgrade_base (upgrade_head other) ≡ some other)
    × (and_then
          (run (downgrade r0003))
          (run (upgrade r0003) (schema_before (down_revision r0003) other))
        ≡ some (schema_before (down_revision r0003) other))
upgrades_invert_example = upgrades_invert other r0003 other-IsFresh

least_privilege_example :
    let grants = (schema_at r0005 other).grants in
    All (λ (n, p). may app_role p n grants ≡ true) issued
    × (may app_role delete "audit_log" grants ≡ false)
    × (may app_role insert "admin_users" grants ≡ false)
    × (may app_role update "audit_log" grants ≡ false)
    × (may app_role update "usage_records" grants ≡ false)
least_privilege_example =
    least_privilege other (schema_at r0005 other) "audit_log" other-IsFresh
      (upgrade_head_lem other other-IsFresh)

abbrev acme : RlsContext
acme = record { tenant_id = some "t1"; bypass = false }

tables-Isolated_example :
    let t = schema_at r0005 other in
    All
      (λ name.
        (reads app acme (some "t2") name t ≡ reached acme (some "t2") name t)
        × (inserts app acme (some "t2") name t
            ≡ (not (not_inserted name) && reached acme (some "t2") name t))
        × (updates app acme (some "t2") (some "t1") name t ≡ (
            not (append_only name)
            && reached acme (some "t2") name t
            && reached acme (some "t1") name t))
        × (reads owner acme (some "t2") name t ≡ true)
        × (inserts owner acme (some "t2") name t ≡ true))
      tables
tables-Isolated_example =
    tables-Isolated other (schema_at r0005 other) acme (some "t2") (some "t1") other-IsFresh
      (upgrade_head_lem other other-IsFresh)

models-Migrated_example :
    let t = schema_at r0005 other in
    All
      (λ m.
        let columns = columns_of (find_table m.tablename t.tables) in
        (length m.columns ≡ length columns)
        × All
            (λ c.
              (declared_as c (find_column c.name columns) ≡ true)
              × (same_null c (find_column c.name columns) ≡ not (c.name ≟ "created_at")))
            m.columns)
      models
models-Migrated_example =
    models-Migrated other (schema_at r0005 other) other-IsFresh
      (upgrade_head_lem other other-IsFresh)
