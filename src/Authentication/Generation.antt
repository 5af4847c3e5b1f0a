-- ===== src/Authentication/Generation.antt =====
-- `generate_api_key` of src/aegis_gateway/core/security.py. The random bytes are arguments; `secrets.token_hex`
-- and `secrets.token_urlsafe` of the standard library are written out over them.
pub mod Laws
use aegis_gateway.Prelude.{ℕ, ◌+◌, ◌-◌, ◌*◌, ◌/◌, ◌%◌, List, [], ◌∷◌, ◌==◌, ltb, if◌then◌else◌}
use aegis_gateway.Authentication.{full_key}

-- `KEY_ID_BYTES`
abbrev pub key_id_bytes : ℕ
key_id_bytes = 8

-- `SECRET_BYTES`
abbrev pub secret_bytes : ℕ
secret_bytes = 24

unfoldable pub hex_digit : ℕ → ℕ
hex_digit d = if ltb d 10 then b'0' + d else b'a' + (d - 10)

-- `secrets.token_hex`: two digits for each byte.
unfoldable pub token_hex : List ℕ → List ℕ
token_hex [] = []
token_hex (b ∷ bytes) = hex_digit (b / 16) ∷ hex_digit (b % 16) ∷ token_hex bytes

-- The URL-safe alphabet of base64.
unfoldable pub base64_digit : ℕ → ℕ
base64_digit d =
    if ltb d 26
    then b'A' + d
    else if ltb d 52
    then b'a' + (d - 26)
    else if ltb d 62
    then b'0' + (d - 52)
    else if d == 62
    then b'-'
    else b'_'

-- `secrets.token_urlsafe`: four digits for each three bytes, and no padding at the end.
unfoldable pub token_urlsafe : List ℕ → List ℕ
token_urlsafe [] = []
token_urlsafe (a ∷ []) = base64_digit (a / 4) ∷ base64_digit (a % 4 * 16) ∷ []
token_urlsafe (a ∷ b ∷ []) =
    base64_digit (a / 4) ∷ base64_digit (a % 4 * 16 + b / 16) ∷ base64_digit (b % 16 * 4) ∷ []
token_urlsafe (a ∷ b ∷ c ∷ bytes) =
    base64_digit (a / 4)
    ∷ base64_digit (a % 4 * 16 + b / 16)
    ∷ base64_digit (b % 16 * 4 + c / 64)
    ∷ base64_digit (c % 64)
    ∷ token_urlsafe bytes

-- The full key, its id and its secret part.
unfoldable pub generate_api_key : List ℕ → List ℕ → List ℕ × List ℕ × List ℕ
unfolding token_hex token_urlsafe
generate_api_key id_bytes random_bytes =
    let key_id = token_hex id_bytes in
    let secret_part = token_urlsafe random_bytes in
    (full_key key_id secret_part, key_id, secret_part)
