-- ===== src/Edge/Correlation.antt =====
-- The correlation id on its way from the request's header to the columns that keep it.
use aegis_gateway.Prelude.{
  ◌≡◌, String, Bool, true, false, Option, none, some, length, leb, [], ◌∷◌, ◌++◌,
}
use aegis_gateway.CodePoints.{codes}
use aegis_gateway.Database.{no_context, AuditLog, UsageRecord, Db}
use aegis_gateway.Migrations.{ColumnType, string, Schema}
use aegis_gateway.Migrations.Rows.{find_table, find_column, columns_of}

-- PostgreSQL refuses a text that is longer than its column.
abbrev pub within : ColumnType → String → Bool
within (string n) value = leb (length (codes value)) n
within _ value = true

unfoldable pub fits : String → String → String → Schema → Bool
fits value table_name column_name s =
    elim (find_column column_name (columns_of (find_table table_name s.tables))) [
      | none ↦ false
      | some c ↦ within c.type value
    ]

abbrev pub short_enough : Option String → Bool
short_enough none = true
short_enough (some id) = leb (length (codes id)) 64

-- What an INSERT does whose values fit, or not.
abbrev pub Inserts : Bool → AuditLog → Db → Db → Type 0
Inserts true row db db' =
    db' ≡ record db { audit_log = db.audit_log ++ row ∷ []; context = no_context }
Inserts false row db db' = db' ≡ record db { refused = true; context = no_context }

abbrev pub Records : Bool → UsageRecord → Db → Db → Type 0
Records true row db db' =
    db' ≡ record db { usage_records = db.usage_records ++ row ∷ []; context = no_context }
Records false row db db' = db' ≡ record db { refused = true; context = no_context }
