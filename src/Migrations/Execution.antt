-- ===== src/Migrations/Execution.antt =====
-- What the statements do, and when they are refused: a name that is taken or not there, a column that
-- is read but not there, a table that others refer to, a role that still holds a grant. A column that is
-- dropped takes the checks, unique constraints and indexes with it that read it. `DROP POLICY` and
-- `DROP ROLE` stand with `IF EXISTS`, and the role is created only where there is none.
use aegis_gateway.Prelude.{
  String, Bool, true, false, ◌&&◌, ◌||◌, not, Option, none, some, List, [], ◌∷◌, ◌++◌, ◌≟◌,
  if◌then◌else◌,
}
use aegis_gateway.Migrations.{
  OnDelete, Column, Constraint, Unique, Index, Policy, Table, Object, table, public_schema,
  current_database, Grant, Schema, Statement, create_table, drop_table, create_index, add_column,
  drop_column, create_check, drop_check, create_role, drop_role, grant, revoke_all,
  enable_row_security, disable_row_security, create_policy, drop_policy,
}

unfoldable pub defines : String → List Table → Bool
defines name [] = false
defines name (t ∷ tables) = t.name ≟ name || defines name tables

abbrev pub points_to : String → Option (String × OnDelete) → Bool
points_to name none = false
points_to name (some (target, _)) = target ≟ name

abbrev pub refers_to : String → List Column → Bool
refers_to name [] = false
refers_to name (c ∷ columns) = points_to name c.references || refers_to name columns

-- A foreign key of one of the tables points to the table.
unfoldable pub referenced : String → List Table → Bool
referenced name [] = false
referenced name (t ∷ tables) = refers_to name t.columns || referenced name tables

unfoldable pub without_table : String → List Table → List Table
without_table name [] = []
without_table name (t ∷ tables) =
    let rest = without_table name tables in if t.name ≟ name then tables else t ∷ rest

abbrev pub prepended : Table → Option (List Table) → Option (List Table)
prepended t none = none
prepended t (some tables) = some (t ∷ tables)

abbrev pub replaced : List Table → Option Table → Option (List Table)
replaced tables none = none
replaced tables (some t) = some (t ∷ tables)

-- Without the table the statement is refused, and where the change of the table is.
unfoldable pub alter : String → (Table → Option Table) → List Table → Option (List Table)
alter name change [] = none
alter name change (t ∷ tables) =
    let rest = prepended t (alter name change tables) in
    if t.name ≟ name then replaced tables (change t) else rest

abbrev pub has_column : String → List Column → Bool
has_column name [] = false
has_column name (c ∷ columns) = c.name ≟ name || has_column name columns

abbrev pub has_check : String → List Constraint → Bool
has_check name [] = false
has_check name (c ∷ checks) = c.name ≟ name || has_check name checks

abbrev pub has_policy : String → List Policy → Bool
has_policy name [] = false
has_policy name (p ∷ policies) = p.name ≟ name || has_policy name policies

abbrev pub has_index : String → List Index → Bool
has_index name [] = false
has_index name (i ∷ indexes) = i.name ≟ name || has_index name indexes

abbrev pub has_unique : String → List Unique → Bool
has_unique name [] = false
has_unique name (u ∷ uniques) = u.name ≟ name || has_unique name uniques

-- An index of one of the tables has the name, or a unique constraint, which makes an index. Tables and
-- indexes share one namespace in a schema.
unfoldable pub indexed : String → List Table → Bool
indexed name [] = false
indexed name (t ∷ tables) =
    has_index name t.indexes || has_unique name t.uniques || indexed name tables

abbrev pub taken : String → List Table → Bool
taken name tables = defines name tables || indexed name tables

abbrev pub all_free : List Unique → List Table → Bool
all_free [] tables = true
all_free (u ∷ uniques) tables = not (taken u.name tables) && all_free uniques tables

abbrev pub listed : String → List String → Bool
listed name [] = false
listed name (n ∷ names) = n ≟ name || listed name names

abbrev pub have_columns : List String → List Column → Bool
have_columns [] columns = true
have_columns (n ∷ names) columns = has_column n columns && have_columns names columns

abbrev pub all_have_columns : List Constraint → List Column → Bool
all_have_columns [] columns = true
all_have_columns (c ∷ checks) columns =
    have_columns c.columns columns && all_have_columns checks columns

abbrev pub without_column : String → List Column → List Column
without_column name [] = []
without_column name (c ∷ columns) =
    let rest = without_column name columns in if c.name ≟ name then rest else c ∷ rest

abbrev pub without_check : String → List Constraint → List Constraint
without_check name [] = []
without_check name (c ∷ checks) =
    let rest = without_check name checks in if c.name ≟ name then rest else c ∷ rest

-- What goes with a column: the checks, the unique constraints and the indexes that read it.
abbrev pub checks_without : String → List Constraint → List Constraint
checks_without column [] = []
checks_without column (c ∷ checks) =
    let rest = checks_without column checks in if listed column c.columns then rest else c ∷ rest

abbrev pub uniques_without : String → List Unique → List Unique
uniques_without column [] = []
uniques_without column (u ∷ uniques) =
    let rest = uniques_without column uniques in if listed column u.columns then rest else u ∷ rest

abbrev pub indexes_without : String → List Index → List Index
indexes_without column [] = []
indexes_without column (i ∷ indexes) =
    let rest = indexes_without column indexes in if listed column i.columns then rest else i ∷ rest

abbrev pub without_policy : String → List Policy → List Policy
without_policy name [] = []
without_policy name (p ∷ policies) =
    let rest = without_policy name policies in if p.name ≟ name then rest else p ∷ rest

abbrev pub same_object : Object → Object → Bool
same_object (table a) (table b) = a ≟ b
same_object public_schema public_schema = true
same_object current_database current_database = true
same_object _ _ = false

-- Grants to a role, and grants on an object.
unfoldable pub granted_to : String → List Grant → Bool
granted_to role [] = false
granted_to role (g ∷ grants) = g.role ≟ role || granted_to role grants

unfoldable pub granted_on : Object → List Grant → Bool
granted_on object [] = false
granted_on object (g ∷ grants) = same_object g.object object || granted_on object grants

unfoldable pub revoked : String → Object → List Grant → List Grant
revoked role object [] = []
revoked role object (g ∷ grants) =
    let rest = revoked role object grants in
    if g.role ≟ role && same_object g.object object then rest else g ∷ rest

unfoldable pub without_object : Object → List Grant → List Grant
without_object object [] = []
without_object object (g ∷ grants) =
    let rest = without_object object grants in
    if same_object g.object object then rest else g ∷ rest

unfoldable pub has_role : String → List String → Bool
has_role role [] = false
has_role role (r ∷ roles) = r ≟ role || has_role role roles

unfoldable pub without_role : String → List String → List String
without_role role [] = []
without_role role (r ∷ roles) =
    let rest = without_role role roles in if r ≟ role then rest else r ∷ rest

abbrev pub exists : Object → List Table → Bool
exists (table name) tables = defines name tables
exists _ tables = true

abbrev pub with_tables : Schema → Option (List Table) → Option Schema
with_tables s none = none
with_tables s (some tables) = some (record s { tables = tables })

unfoldable pub execute : Statement → Schema → Option Schema
execute (create_table name columns checks uniques) s =
    if taken name s.tables
      || not (all_have_columns checks columns)
      || not (all_free uniques s.tables)
    then none
    else some (record s {
      tables =
          record {
            name = name;
            columns = columns;
            checks = checks;
            uniques = uniques;
            indexes = [];
            row_security = false;
            policies = [];
          }
          ∷ s.tables;
    })
execute (drop_table name) s =
    if not (defines name s.tables) || referenced name (without_table name s.tables)
    then none
    else some (record s {
      tables = without_table name s.tables;
      grants = without_object (table name) s.grants;
    })
execute (create_index name index) s =
    if taken index.name s.tables
    then none
    else with_tables s (
        alter name
          (λ t.
            if have_columns index.columns t.columns
            then some (record t { indexes = t.indexes ++ index ∷ [] })
            else none)
          s.tables)
execute (add_column name c) s = with_tables s (
    alter name
      (λ t.
        if has_column c.name t.columns
        then none
        else some (record t { columns = t.columns ++ c ∷ [] }))
      s.tables)
execute (drop_column name c) s = with_tables s (
    alter name
      (λ t.
        if has_column c t.columns
        then some (record t {
          columns = without_column c t.columns;
          checks = checks_without c t.checks;
          uniques = uniques_without c t.uniques;
          indexes = indexes_without c t.indexes;
        })
        else none)
      s.tables)
execute (create_check name check) s = with_tables s (
    alter name
      (λ t.
        if has_check check.name t.checks || not (have_columns check.columns t.columns)
        then none
        else some (record t { checks = t.checks ++ check ∷ [] }))
      s.tables)
execute (drop_check name check) s = with_tables s (
    alter name
      (λ t.
        if has_check check t.checks
        then some (record t { checks = without_check check t.checks })
        else none)
      s.tables)
execute (create_role role) s =
    if has_role role s.roles then some s else some (record s { roles = role ∷ s.roles })
execute (drop_role role) s =
    if granted_to role s.grants then none else some (record s { roles = without_role role s.roles })
execute (grant role object privileges) s =
    if has_role role s.roles && exists object s.tables
    then some (record s {
      grants = record { role = role; object = object; privileges = privileges } ∷ s.grants;
    })
    else none
execute (revoke_all role object) s =
    if has_role role s.roles && exists object s.tables
    then some (record s { grants = revoked role object s.grants })
    else none
execute (enable_row_security name) s =
    with_tables s (alter name (λ t. some (record t { row_security = true })) s.tables)
execute (disable_row_security name) s =
    with_tables s (alter name (λ t. some (record t { row_security = false })) s.tables)
execute (create_policy name policy) s = with_tables s (
    alter name
      (λ t.
        if has_policy policy.name t.policies
        then none
        else some (record t { policies = t.policies ++ policy ∷ [] }))
      s.tables)
execute (drop_policy name policy) s =
    with_tables s
      (alter name (λ t. some (record t { policies = without_policy policy t.policies })) s.tables)

-- A refusal ends the migration.
abbrev pub and_then : (Schema → Option Schema) → Option Schema → Option Schema
and_then f none = none
and_then f (some s) = f s

unfoldable pub run : List Statement → Schema → Option Schema
run [] s = some s
run (statement ∷ statements) s = and_then (run statements) (execute statement s)
