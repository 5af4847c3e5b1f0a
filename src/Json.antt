-- ===== src/Json.antt =====
-- The values that the code puts into a JSONB column, and `_json_safe` of src/aegis_gateway/api/admin.py. A
-- `Decimal` is no JSON value: the serializer of the column raises a TypeError on it.
pub mod Laws
use aegis_gateway.Prelude.{ℕ, String, Bool, true, false, ◌&&◌}

mutual
  pub data Json : Type 0 where
    null : Json
    bool : Bool → Json
    int : ℕ → Json
    float : ℕ → Json
    str : String → Json
    decimal : ℕ → Json
    dict : Fields → Json

  pub data Fields : Type 0 where
    nil : Fields
    field : String → Json → Fields → Fields

-- What `json.dumps` accepts.
unfoldable mutual
  pub serializable : Json → Bool
  serializable null = true
  serializable (bool b) = true
  serializable (int n) = true
  serializable (float n) = true
  serializable (str s) = true
  serializable (decimal n) = false
  serializable (dict fields) = fields_serializable fields

  pub fields_serializable : Fields → Bool
  fields_serializable nil = true
  fields_serializable (field key value fields) = serializable value && fields_serializable fields

-- `str(v) if isinstance(v, Decimal) else v`; `print` is `str`.
unfoldable pub safe_value : (ℕ → String) → Json → Json
safe_value print (decimal n) = str (print n)
safe_value print value = value

unfoldable pub json_safe : (ℕ → String) → Fields → Fields
unfolding safe_value
json_safe print nil = nil
json_safe print (field key value fields) =
    field key (safe_value print value) (json_safe print fields)
