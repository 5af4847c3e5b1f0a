-- ===== src/Json/Laws.antt =====
-- What `_json_safe` makes serializable.
use aegis_gateway.Prelude.{ℕ, String, Bool, true, ◌&&◌, ◌≡◌, refl, arith}
use aegis_gateway.Json.{
  Json, null, bool, int, float, str, decimal, dict, Fields, nil, field, serializable,
  fields_serializable, json_safe, safe_value,
}

-- The nested values are serializable: those of a dict that is itself a value.
abbrev pub flat_value : Json → Bool
flat_value (dict fields) = fields_serializable fields
flat_value value = true

abbrev pub flat : Fields → Bool
flat nil = true
flat (field key value fields) = flat_value value && flat fields

serializable-safe_value :
    (print : ℕ → String) (value : Json) → serializable (safe_value print value) ≡ flat_value value
unfolding serializable safe_value
serializable-safe_value print null = refl
serializable-safe_value print (bool b) = refl
serializable-safe_value print (int n) = refl
serializable-safe_value print (float n) = refl
serializable-safe_value print (str s) = refl
serializable-safe_value print (decimal n) = refl
serializable-safe_value print (dict fields) = refl

-- After `_json_safe` the fields are serializable exactly if their nested dicts are.
pub fields_serializable-json_safe :
    (print : ℕ → String) (fields : Fields)
    → fields_serializable (json_safe print fields) ≡ flat fields
unfolding fields_serializable json_safe
fields_serializable-json_safe print nil = refl
fields_serializable-json_safe print (field key value fields) =
    ground (arith, serializable-safe_value print value, fields_serializable-json_safe print fields)
