-- ===== src/Migrations/Common.antt =====
-- The parts that the migrations of alembic/versions share.
use aegis_gateway.Prelude.{String, true, false, some, List, [], ◌∷◌}
use aegis_gateway.Database.{tenant_isolation}
use aegis_gateway.Migrations.{
  uuid, cascade, Column, required, Index, Policy, Statement, enable_row_security,
  disable_row_security, create_policy, drop_policy,
}

abbrev pub app_role : String
app_role = "aegis_app"

abbrev pub tenant_id_column : Column
tenant_id_column = record (required "tenant_id" uuid) { references = some ("tenants", cascade) }

abbrev pub index_on : String → List String → Index
index_on name columns = record { name = name; columns = columns; unique = false }

abbrev pub unique_index : String → List String → Index
unique_index name columns = record { name = name; columns = columns; unique = true }

-- The policy that 0001 and 0005 create, for reading and for writing.
abbrev pub isolation : Policy
isolation = record {
  name = "tenant_isolation";
  using = tenant_isolation;
  with_check = tenant_isolation;
}

-- The round of the loop for one table.
abbrev pub isolate : String → List Statement
isolate name = enable_row_security name ∷ create_policy name isolation ∷ []

abbrev pub expose : String → List Statement
expose name = drop_policy name "tenant_isolation" ∷ disable_row_security name ∷ []
