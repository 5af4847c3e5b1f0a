-- ===== src/Migrations.antt =====
-- The database schema that alembic/versions builds, as the state of its migrations: tables with
-- columns, constraints, indexes and policies, roles and grants. A statement is a command of SQL's data
-- definition language, with the effect and the refusals that PostgreSQL documents for it; a refused
-- statement ends its migration, which runs in one transaction.
pub mod Execution
pub mod Common
pub mod Initial
pub mod RateLimits
pub mod SecurityPolicy
pub mod CacheToggle
pub mod UsageTracking
pub mod Versions
pub mod Described
pub mod Models
pub mod Access
pub mod Rows
pub mod Tests
pub mod Laws
use aegis_gateway.Prelude.{
  ℕ, String, Bool, true, false, ◌&&◌, ◌||◌, not, Option, none, some, List, [], ◌∷◌, ◌++◌, ◌≟◌,
  if◌then◌else◌,
}
use aegis_gateway.Database.{RlsContext}

pub data ColumnType : Type 0 where
  uuid boolean timestamptz integer float_ jsonb string_array : ColumnType
  string : ℕ → ColumnType
  numeric : ℕ → ℕ → ColumnType

pub data OnDelete : Type 0 where
  cascade set_null : OnDelete

pub record Column : Type 0 where
  pub name : String
  pub type : ColumnType
  pub primary_key : Bool
  pub nullable : Bool
  pub unique : Bool
  pub server_default : Option String
  pub references : Option (String × OnDelete)

-- `sa.Column(name, type)`, which is nullable.
abbrev pub column : String → ColumnType → Column
column name type = record {
  name = name;
  type = type;
  primary_key = false;
  nullable = true;
  unique = false;
  server_default = none;
  references = none;
}

abbrev pub required : String → ColumnType → Column
required name type = record (column name type) { nullable = false }

abbrev pub required_with : String → ColumnType → String → Column
required_with name type value = record (required name type) { server_default = some value }

abbrev pub primary : Column
primary = record (required "id" uuid) { primary_key = true }

abbrev pub created_at : Column
created_at = record (column "created_at" timestamptz) { server_default = some "now()" }

-- A check, with the columns that its condition reads.
pub record Constraint : Type 0 where
  pub name : String
  pub columns : List String
  pub condition : String

pub record Unique : Type 0 where
  pub name : String
  pub columns : List String

pub record Index : Type 0 where
  pub name : String
  pub columns : List String
  pub unique : Bool

-- A policy decides by the transaction's context and the row's tenant.
pub record Policy : Type 0 where
  pub name : String
  pub using : RlsContext → Option String → Bool
  pub with_check : RlsContext → Option String → Bool

pub record Table : Type 0 where
  pub name : String
  pub columns : List Column
  pub checks : List Constraint
  pub uniques : List Unique
  pub indexes : List Index
  pub row_security : Bool
  pub policies : List Policy

pub data Privilege : Type 0 where
  select insert update delete connect usage : Privilege

pub data Object : Type 0 where
  table : String → Object
  public_schema current_database : Object

pub record Grant : Type 0 where
  pub role : String
  pub object : Object
  pub privileges : List Privilege

-- The newest table, role and grant stand first.
pub record Schema : Type 0 where
  pub tables : List Table
  pub roles : List String
  pub grants : List Grant

pub data Statement : Type 0 where
  create_table : String → List Column → List Constraint → List Unique → Statement
  drop_table : String → Statement
  create_index : String → Index → Statement
  add_column : String → Column → Statement
  drop_column : String → String → Statement
  create_check : String → Constraint → Statement
  drop_check : String → String → Statement
  create_role : String → Statement
  drop_role : String → Statement
  grant : String → Object → List Privilege → Statement
  revoke_all : String → Object → Statement
  enable_row_security : String → Statement
  disable_row_security : String → Statement
  create_policy : String → Policy → Statement
  drop_policy : String → String → Statement
