-- ===== src/Authentication/Generation/Laws.antt =====
-- Generated keys: their lengths, their characters, and that the random bytes can be read back.
use aegis_gateway.Prelude.{
  ℕ, ◌+◌, ◌-◌, ◌*◌, ◌/◌, ◌%◌, ◌<◌, ◌≡◌, refl, ap, ap₂, false, List, [], ◌∷◌, ◌==◌, ltb,
  if◌then◌else◌, All, length, arith,
}
use aegis_gateway.CodePoints.{is_space}
use aegis_gateway.Authentication.Generation.{hex_digit, token_hex, base64_digit, token_urlsafe}

abbrev pub AreBytes : List ℕ → Type 0
AreBytes = All (λ b. b < 256)

-- A character that neither ends an id nor can be stripped.
abbrev pub IsTokenChar : ℕ → Type 0
IsTokenChar c = ((c == b'.') ≡ false) × (is_space c ≡ false)

hex_digit-IsTokenChar : (d : ℕ) → d < 16 → IsTokenChar (hex_digit d)
unfolding hex_digit
hex_digit-IsTokenChar d h = (ground arith, ground arith)

pub token_hex-AreTokenChars : (bytes : List ℕ) → AreBytes bytes → All IsTokenChar (token_hex bytes)
unfolding token_hex
token_hex-AreTokenChars [] h = tt
token_hex-AreTokenChars (b ∷ bytes) (small, h) = (
  hex_digit-IsTokenChar (b / 16) (omega arith),
  (hex_digit-IsTokenChar (b % 16) (omega arith), token_hex-AreTokenChars bytes h),
)

pub length-token_hex : (bytes : List ℕ) → length (token_hex bytes) ≡ 2 * length bytes
unfolding token_hex
length-token_hex [] = refl
length-token_hex (b ∷ bytes) = omega (arith, length-token_hex bytes)

base64_digit-IsTokenChar : (d : ℕ) → IsTokenChar (base64_digit d)
unfolding base64_digit
base64_digit-IsTokenChar d = (ground arith, ground arith)

pub token_urlsafe-AreTokenChars : (bytes : List ℕ) → All IsTokenChar (token_urlsafe bytes)
unfolding token_urlsafe
token_urlsafe-AreTokenChars [] = tt
token_urlsafe-AreTokenChars (a ∷ []) =
    (base64_digit-IsTokenChar _, (base64_digit-IsTokenChar _, tt))
token_urlsafe-AreTokenChars (a ∷ b ∷ []) =
    (base64_digit-IsTokenChar _, (base64_digit-IsTokenChar _, (base64_digit-IsTokenChar _, tt)))
token_urlsafe-AreTokenChars (a ∷ b ∷ c ∷ bytes) = (
  base64_digit-IsTokenChar _,
  (
    base64_digit-IsTokenChar _,
    (base64_digit-IsTokenChar _, (base64_digit-IsTokenChar _, token_urlsafe-AreTokenChars bytes)),
  ),
)

-- Four digits for three bytes, rounded up to whole digits.
pub length-token_urlsafe :
    (bytes : List ℕ) → length (token_urlsafe bytes) ≡ (4 * length bytes + 2) / 3
unfolding token_urlsafe
length-token_urlsafe [] = refl
length-token_urlsafe (a ∷ []) = refl
length-token_urlsafe (a ∷ b ∷ []) = refl
length-token_urlsafe (a ∷ b ∷ c ∷ bytes) = omega (arith, length-token_urlsafe bytes)

-- Reading the digits back.
unfoldable pub hex_value : ℕ → ℕ
hex_value c = if ltb c b'a' then c - b'0' else c - b'a' + 10

unfoldable pub from_hex : List ℕ → List ℕ
from_hex [] = []
from_hex (x ∷ []) = []
from_hex (x ∷ y ∷ digits) = (hex_value x * 16 + hex_value y) ∷ from_hex digits

hex_value-hex_digit : (d : ℕ) → d < 16 → hex_value (hex_digit d) ≡ d
unfolding hex_value hex_digit
hex_value-hex_digit d h = ground arith

pub from_hex-token_hex : (bytes : List ℕ) → AreBytes bytes → from_hex (token_hex bytes) ≡ bytes
unfolding from_hex token_hex
from_hex-token_hex [] h = refl
from_hex-token_hex (b ∷ bytes) (small, h) =
    ap₂ ◌∷◌
      (omega (
        arith,
        hex_value-hex_digit (b / 16) (omega arith),
        hex_value-hex_digit (b % 16) (omega arith),
      ))
      (from_hex-token_hex bytes h)

unfoldable pub base64_value : ℕ → ℕ
base64_value c =
    if c == b'-'
    then 62
    else if c == b'_'
    then 63
    else if ltb c b'A'
    then c - b'0' + 52
    else if ltb c b'a'
    then c - b'A'
    else c - b'a' + 26

unfoldable pub from_urlsafe : List ℕ → List ℕ
from_urlsafe [] = []
from_urlsafe (w ∷ []) = []
from_urlsafe (w ∷ x ∷ []) = (base64_value w * 4 + base64_value x / 16) ∷ []
from_urlsafe (w ∷ x ∷ y ∷ []) =
    (base64_value w * 4 + base64_value x / 16)
    ∷ (base64_value x % 16 * 16 + base64_value y / 4)
    ∷ []
from_urlsafe (w ∷ x ∷ y ∷ z ∷ digits) =
    (base64_value w * 4 + base64_value x / 16)
    ∷ (base64_value x % 16 * 16 + base64_value y / 4)
    ∷ (base64_value y % 4 * 64 + base64_value z)
    ∷ from_urlsafe digits

base64_value-base64_digit : (d : ℕ) → d < 64 → base64_value (base64_digit d) ≡ d
unfolding base64_value base64_digit
base64_value-base64_digit d h = ground arith

first_byte :
    (a n : ℕ)
    → a < 256
    → n < 16
    → base64_value (base64_digit (a / 4)) * 4 + base64_value (base64_digit (a % 4 * 16 + n)) / 16
      ≡ a
first_byte a n h k = omega (
  arith,
  base64_value-base64_digit (a / 4) (omega arith),
  base64_value-base64_digit (a % 4 * 16 + n) (omega arith),
)

second_byte :
    (a b n : ℕ)
    → b < 256
    → n < 4
    → base64_value (base64_digit (a % 4 * 16 + b / 16)) % 16 * 16
        + base64_value (base64_digit (b % 16 * 4 + n)) / 4
      ≡ b
second_byte a b n h k = omega (
  arith,
  base64_value-base64_digit (a % 4 * 16 + b / 16) (omega arith),
  base64_value-base64_digit (b % 16 * 4 + n) (omega arith),
)

third_byte :
    (b c : ℕ)
    → c < 256
    → base64_value (base64_digit (b % 16 * 4 + c / 64)) % 4 * 64
        + base64_value (base64_digit (c % 64))
      ≡ c
third_byte b c h = omega (
  arith,
  base64_value-base64_digit (b % 16 * 4 + c / 64) (omega arith),
  base64_value-base64_digit (c % 64) (omega arith),
)

pub from_urlsafe-token_urlsafe :
    (bytes : List ℕ) → AreBytes bytes → from_urlsafe (token_urlsafe bytes) ≡ bytes
unfolding from_urlsafe token_urlsafe
from_urlsafe-token_urlsafe [] h = refl
from_urlsafe-token_urlsafe (a ∷ []) (ha, h) =
    let last : base64_value (base64_digit (a % 4 * 16)) ≡ a % 4 * 16 =
      base64_value-base64_digit (a % 4 * 16) (omega arith) in
    ap (λ x. x ∷ []) (omega (arith, base64_value-base64_digit (a / 4) (omega arith), last))
from_urlsafe-token_urlsafe (a ∷ b ∷ []) (ha, (hb, h)) =
    let middle = base64_value-base64_digit (a % 4 * 16 + b / 16) (omega arith) in
    let last = base64_value-base64_digit (b % 16 * 4) (omega arith) in
    ap₂ ◌∷◌ (first_byte a (b / 16) ha (omega arith))
      (ap (λ x. x ∷ []) (omega (arith, middle, last)))
from_urlsafe-token_urlsafe (a ∷ b ∷ c ∷ bytes) (ha, (hb, (hc, h))) =
    ap₂ ◌∷◌ (first_byte a (b / 16) ha (omega arith)) (
      ap₂ ◌∷◌ (second_byte a b (c / 64) hb (omega arith))
        (ap₂ ◌∷◌ (third_byte b c hc) (from_urlsafe-token_urlsafe bytes h)))
