-- ===== src/Migrations/Rows.antt =====
-- Which rows the policies of the migrated schema show and admit, and how its columns agree with the
-- mapped classes.
use aegis_gateway.Prelude.{
  ◌≡◌, true, false, ◌&&◌, ◌||◌, not, Option, none, some, List, [], ◌∷◌, String, Bool, arith, ◌≟◌,
  All, if◌then◌else◌, ◌==◌, length,
}
use aegis_gateway.Database.{RlsContext, tenant_isolation}
use aegis_gateway.Migrations.{
  ColumnType, uuid, boolean, timestamptz, integer, float_, jsonb, string_array, string, numeric,
  Privilege, select, insert, update, OnDelete, cascade, set_null, Column, Policy, Table, Schema,
}
use aegis_gateway.Migrations.Versions.{r0005, upgrade_head}
use aegis_gateway.Migrations.Described.{schema_at, IsFresh, tables}
use aegis_gateway.Migrations.Models.{models}
use aegis_gateway.Migrations.Laws.{upgrade_head_lem}
use aegis_gateway.Migrations.Common.{app_role}
use aegis_gateway.Migrations.Access.{may, may-absent}

abbrev pub find_table : String → List Table → Option Table
find_table name [] = none
find_table name (t ∷ tables) =
    let rest = find_table name tables in if t.name ≟ name then some t else rest

abbrev pub find_column : String → List Column → Option Column
find_column name [] = none
find_column name (c ∷ columns) =
    let rest = find_column name columns in if c.name ≟ name then some c else rest

-- The policies of a table admit what one of them admits, and nothing where there is none.
abbrev pub any_using : RlsContext → Option String → List Policy → Bool
any_using context row [] = false
any_using context row (p ∷ policies) = p.using context row || any_using context row policies

abbrev pub any_check : RlsContext → Option String → List Policy → Bool
any_check context row [] = false
any_check context row (p ∷ policies) = p.with_check context row || any_check context row policies

abbrev pub shows : RlsContext → Option String → Option Table → Bool
shows context row none = false
shows context row (some t) = if t.row_security then any_using context row t.policies else true

abbrev pub admits : RlsContext → Option String → Option Table → Bool
admits context row none = false
admits context row (some t) = if t.row_security then any_check context row t.policies else true

abbrev is_there : Option Column → Bool
is_there none = false
is_there (some c) = true

abbrev is_there_table : Option Table → Bool
is_there_table none = false
is_there_table (some t) = true

-- The table has a column for the tenant of a row.
abbrev pub has_tenant : Option Table → Bool
has_tenant none = false
has_tenant (some t) = is_there (find_column "tenant_id" t.columns)

-- Who runs a transaction: the owner of the tables, for whom the migrations do not force their policies,
-- or another role, which is no superuser.
pub data User : Type 0 where
  owner : User
  member : String → User

unfoldable pub reads : User → RlsContext → Option String → String → Schema → Bool
reads owner context row name s = is_there_table (find_table name s.tables)
reads (member role) context row name s =
    may role select name s.grants && shows context row (find_table name s.tables)

unfoldable pub inserts : User → RlsContext → Option String → String → Schema → Bool
inserts owner context row name s = is_there_table (find_table name s.tables)
inserts (member role) context row name s =
    may role insert name s.grants && admits context row (find_table name s.tables)

-- An update of a row of the tenant `old` to one of the tenant `new`.
unfoldable pub updates : User → RlsContext → Option String → Option String → String → Schema → Bool
updates owner context old new name s = is_there_table (find_table name s.tables)
updates (member role) context old new name s =
    may role update name s.grants
    && shows context old (find_table name s.tables)
    && admits context new (find_table name s.tables)

-- The rows of a table that a context reaches: those that tenant_isolation lets it see, if the table
-- has a tenant_id.
abbrev pub reached : RlsContext → Option String → String → Schema → Bool
reached context row name s =
    if has_tenant (find_table name s.tables) then tenant_isolation context row else true

-- The tables to which rows are not added, and those whose rows are not changed.
abbrev pub not_inserted : String → Bool
not_inserted name = name ≟ "admin_users"

abbrev pub append_only : String → Bool
append_only name = name ≟ "audit_log" || name ≟ "usage_records"

abbrev pub app : User
app = member app_role

-- In the schema at the head, a transaction of the application's role reads a row of a table exactly if
-- tenant_isolation lets its context see the row's tenant, or if the table has no tenant_id, which
-- are tenants and admin_users. It inserts a row under the same condition, but none into admin_users;
-- and it updates a row exactly if the condition holds of the row before and after, but none of
-- audit_log or usage_records. The owner of the tables reads and inserts every row, in any context.
pub tables-Isolated :
    (s t : Schema) (context : RlsContext) (row new : Option String)
    → IsFresh s
    → upgrade_head s ≡ some t
    → All
        (λ name.
          (reads app context row name t ≡ reached context row name t)
          × (inserts app context row name t
              ≡ (not (not_inserted name) && reached context row name t))
          × (updates app context row new name t ≡ (
              not (append_only name) && reached context row name t && reached context new name t))
          × (reads owner context row name t ≡ true)
          × (inserts owner context row name t ≡ true))
        tables
unfolding schema_at reads inserts updates may
tables-Isolated s t context row new fresh built =
    let is_head : t ≡ schema_at r0005 s = cc (upgrade_head_lem s fresh) in
    let none_to = λ (p : Privilege) (n : String). may-absent app_role p n s.grants fresh.2 in
    rw is_head (
      ground (
        arith,
        none_to insert "admin_users",
        none_to update "audit_log",
        none_to update "usage_records",
      ))

abbrev pub same_type : ColumnType → ColumnType → Bool
same_type uuid uuid = true
same_type boolean boolean = true
same_type timestamptz timestamptz = true
same_type integer integer = true
same_type float_ float_ = true
same_type jsonb jsonb = true
same_type string_array string_array = true
same_type (string n) (string m) = n == m
same_type (numeric p q) (numeric r s) = p == r && q == s
same_type _ _ = false

abbrev pub same_bool : Bool → Bool → Bool
same_bool true b = b
same_bool false b = not b

abbrev pub same_target : Option (String × OnDelete) → Option (String × OnDelete) → Bool
same_target none none = true
same_target (some (a, cascade)) (some (b, cascade)) = a ≟ b
same_target (some (a, set_null)) (some (b, set_null)) = a ≟ b
same_target _ _ = false

-- A column of the database is as a class declares it, but for NOT NULL.
abbrev pub declared_as : Column → Option Column → Bool
declared_as c none = false
declared_as c (some d) =
    same_type c.type d.type
    && same_bool c.primary_key d.primary_key
    && same_bool c.unique d.unique
    && same_target c.references d.references

abbrev pub same_null : Column → Option Column → Bool
same_null c none = false
same_null c (some d) = same_bool c.nullable d.nullable

abbrev pub columns_of : Option Table → List Column
columns_of none = []
columns_of (some t) = t.columns

-- Every mapped class has its table in the schema at the head, with as many columns as it declares, and
-- each of them by its name, with its type, length and precision, its keys and its foreign keys; a
-- column may be NULL in the database exactly if it is declared so, except for created_at, which may
-- be NULL in every table although no class declares it so.
pub models-Migrated :
    (s t : Schema)
    → IsFresh s
    → upgrade_head s ≡ some t
    → All
        (λ m.
          let columns = columns_of (find_table m.tablename t.tables) in
          (length m.columns ≡ length columns)
          × All
              (λ c.
                (declared_as c (find_column c.name columns) ≡ true)
                × (same_null c (find_column c.name columns) ≡ not (c.name ≟ "created_at")))
              m.columns)
        models
unfolding schema_at
models-Migrated s t fresh built =
    let is_head : t ≡ schema_at r0005 s = cc (upgrade_head_lem s fresh) in rw is_head (ground arith)
