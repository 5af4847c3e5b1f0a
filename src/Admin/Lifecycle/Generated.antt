-- ===== src/Admin/Lifecycle/Generated.antt =====
-- Generated keys are what the rest of the gateway takes a key to be.
use aegis_gateway.Prelude.{
  String, ℕ, ◌<◌, ◌≡◌, refl, true, false, some, List, [], ◌∷◌, ◌++◌, ◌==◌, All, length, arith,
}
use mathlib.Core.List.{reverse, reverse-append}
use aegis_gateway.CodePoints.{is_space, is_empty, lstrip}
use aegis_gateway.Authentication.{Tenant, full_key, parse_api_key}
use aegis_gateway.Authentication.Laws.{parse_api_key-full_key}
use aegis_gateway.Authentication.Generation.{
  key_id_bytes, secret_bytes, token_hex, token_urlsafe, generate_api_key,
}
use aegis_gateway.Authentication.Generation.Laws.{
  AreBytes, IsTokenChar, token_hex-AreTokenChars, length-token_hex, token_urlsafe-AreTokenChars,
  length-token_urlsafe, from_hex, from_hex-token_hex, from_urlsafe, from_urlsafe-token_urlsafe,
}
use aegis_gateway.Database.{storable}
use aegis_gateway.Admin.{Plane, Tools, By, find_tenant}
use aegis_gateway.Admin.Keys.{key_taken, create_api_key}
use aegis_gateway.Admin.Lifecycle.Issued.{IsGenerated, Opens, create_api_key-Opens}

abbrev NotSpace : ℕ → Type 0
NotSpace c = is_space c ≡ false

All-append : (xs ys : List ℕ) → All NotSpace xs → All NotSpace ys → All NotSpace (xs ++ ys)
All-append [] ys h k = k
All-append (x ∷ xs) ys (a, h) k = (a, All-append xs ys h k)

All-reverse : (xs : List ℕ) → All NotSpace xs → All NotSpace (reverse xs)
All-reverse [] h = tt
All-reverse (x ∷ xs) (a, h) =
    rw (reverse-append (x ∷ []) xs) (All-append (reverse xs) (x ∷ []) (All-reverse xs h) (a, tt))

lstrip-NotSpace : (xs : List ℕ) → All NotSpace xs → lstrip xs ≡ xs
unfolding lstrip
lstrip-NotSpace [] h = refl
lstrip-NotSpace (x ∷ xs) (a, h) = simp a (refl)

visible : (xs : List ℕ) → All IsTokenChar xs → All NotSpace xs
visible [] h = tt
visible (x ∷ xs) (a, h) = (a.1, visible xs h)

no_dots : (xs : List ℕ) → All IsTokenChar xs → All (λ c. (c == b'.') ≡ false) xs
no_dots [] h = tt
no_dots (x ∷ xs) (a, h) = (a.0, no_dots xs h)

given : (xs : List ℕ) → 0 < length xs → is_empty xs ≡ false
given [] h = absurd (omega arith)
given (x ∷ xs) h = refl

full_key-NotSpace :
    (key_id secret_part : List ℕ)
    → All IsTokenChar key_id
    → All IsTokenChar secret_part
    → All NotSpace (full_key key_id secret_part)
unfolding full_key
full_key-NotSpace key_id secret_part h k =
    let rest =
      All-append key_id (b'.' ∷ secret_part) (visible key_id h) (refl, visible secret_part k) in
    (refl, (refl, (refl, (refl, (refl, (refl, (refl, (refl, (refl, rest)))))))))

-- For any 8 and 24 random bytes: the id has 16 characters and the secret 32; the full key is one that
-- the gateway issues and accepts, and `parse_api_key` gives back its id and its secret; and both can be
-- read back to the bytes, so that no two draws of bytes give the same key.
pub generate_api_key-IsGenerated :
    (id_bytes random_bytes : List ℕ)
    → AreBytes id_bytes
    → AreBytes random_bytes
    → length id_bytes ≡ key_id_bytes
    → length random_bytes ≡ secret_bytes
    → let key = generate_api_key id_bytes random_bytes in
      (length key.1 ≡ 16)
      × (length key.2 ≡ 32)
      × IsGenerated key.1 key.2
      × (parse_api_key key.0 ≡ some (key.1, key.2))
      × (from_hex key.1 ≡ id_bytes)
      × (from_urlsafe key.2 ≡ random_bytes)
unfolding generate_api_key
generate_api_key-IsGenerated id_bytes random_bytes h k m n =
    let key_id = token_hex id_bytes in
    let secret_part = token_urlsafe random_bytes in
    let id_chars = token_hex-AreTokenChars id_bytes h in
    let secret_chars = token_urlsafe-AreTokenChars random_bytes in
    let id_length : length key_id ≡ 16 = omega (arith, length-token_hex id_bytes) in
    let secret_length : length secret_part ≡ 32 =
      omega (arith, length-token_urlsafe random_bytes) in
    let generated : IsGenerated key_id secret_part = record {
      no_dot = no_dots key_id id_chars;
      id_given = given key_id (omega arith);
      secret_given = given secret_part (omega arith);
      trimmed = lstrip-NotSpace (reverse (full_key key_id secret_part)) (
          All-reverse (full_key key_id secret_part)
            (full_key-NotSpace key_id secret_part id_chars secret_chars));
    } in
    (
      id_length,
      secret_length,
      generated,
      parse_api_key-full_key key_id secret_part generated.no_dot generated.id_given
          generated.secret_given,
      from_hex-token_hex id_bytes h,
      from_urlsafe-token_urlsafe random_bytes k,
    )

-- Whatever 8 and 24 random bytes are drawn, if the id that they make is free and the admin's correlation id
-- has at most 64 characters: for a tenant that is found
-- and active, `create_api_key` answers with the generated key. A request that presents this key as a bearer
-- token is then authenticated, with the settings of the tenant, at any time and after any requests to
-- the admin API and to the proxy, as long as none of them was to revoke the key or to change the tenant.
pub create_api_key-generate_api_key-Opens :
    (tools : Tools) (by : By) (id name : String) (now : ℕ) (id_bytes random_bytes : List ℕ)
    (p : Plane) (t : Tenant)
    → AreBytes id_bytes
    → AreBytes random_bytes
    → length id_bytes ≡ key_id_bytes
    → length random_bytes ≡ secret_bytes
    → key_taken (generate_api_key id_bytes random_bytes).1 p.api_keys ≡ false
    → find_tenant id p.tenants ≡ some t
    → t.is_active ≡ true
    → storable by.correlation_id ≡ true
    → let key = generate_api_key id_bytes random_bytes in
      Opens tools t key.1 (create_api_key tools by id name now (key.1, key.2) p)
create_api_key-generate_api_key-Opens tools by id name now id_bytes random_bytes p t h k m n free
      found active short =
    let key = generate_api_key id_bytes random_bytes in
    create_api_key-Opens tools by id name now key.1 key.2 p t
      (generate_api_key-IsGenerated id_bytes random_bytes h k m n).2 free found active short
