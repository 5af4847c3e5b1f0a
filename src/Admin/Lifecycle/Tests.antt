-- ===== src/Admin/Lifecycle/Tests.antt =====
-- A key from concrete bytes.
use aegis_gateway.Prelude.{ℕ, ◌≡◌, refl, some, List, [], ◌∷◌, length, arith}
use aegis_gateway.Authentication.{parse_api_key}
use aegis_gateway.Authentication.Generation.{generate_api_key, token_hex, hex_digit}
use aegis_gateway.Authentication.Generation.Laws.{from_hex, from_urlsafe}
use aegis_gateway.CodePoints.{same}
use aegis_gateway.Database.{storable}
use aegis_gateway.Admin.{find_tenant}
use aegis_gateway.Admin.Keys.{key_taken, create_api_key}
use aegis_gateway.Admin.Tests.{acme, plane, tools, by}
use aegis_gateway.Admin.Lifecycle.Issued.{IsGenerated, Opens}
use aegis_gateway.Admin.Lifecycle.Generated.{
  generate_api_key-IsGenerated, create_api_key-generate_api_key-Opens,
}

abbrev id_bytes : List ℕ
id_bytes = 0 ∷ 1 ∷ 15 ∷ 16 ∷ 127 ∷ 128 ∷ 254 ∷ 255 ∷ []

abbrev random_bytes : List ℕ
random_bytes =
    255 ∷ 254 ∷ 253 ∷ 252 ∷ 0 ∷ 1 ∷ 2 ∷ 3 ∷ 4 ∷ 5 ∷ 6 ∷ 7 ∷ 8 ∷ 9 ∷ 10 ∷ 11 ∷ 12 ∷ 13 ∷ 14 ∷ 15 ∷ 16
    ∷ 17 ∷ 18 ∷ 19 ∷ []

generate_api_key-IsGenerated_example :
    let key = generate_api_key id_bytes random_bytes in
    (length key.1 ≡ 16)
    × (length key.2 ≡ 32)
    × IsGenerated key.1 key.2
    × (parse_api_key key.0 ≡ some (key.1, key.2))
    × (from_hex key.1 ≡ id_bytes)
    × (from_urlsafe key.2 ≡ random_bytes)
generate_api_key-IsGenerated_example =
    generate_api_key-IsGenerated id_bytes random_bytes (ground arith) (ground arith) refl refl

create_api_key-generate_api_key-Opens_example :
    let key = generate_api_key id_bytes random_bytes in
    Opens tools acme key.1 (create_api_key tools by "t1" "second" 9 (key.1, key.2) plane)
unfolding generate_api_key token_hex key_taken same find_tenant hex_digit storable
create_api_key-generate_api_key-Opens_example =
    create_api_key-generate_api_key-Opens tools by "t1" "second" 9 id_bytes random_bytes plane acme
      (ground arith) (ground arith) refl refl refl refl refl refl
