-- ===== src/RateLimit/Slots.antt =====
-- `acquire_concurrency_slot` and `release_concurrency_slot`: INCR and DECR on a signed counter, which
-- gets a lifetime only when INCR makes it 1. A missing or expired key counts as 0, and INCR or DECR
-- then makes a key without a lifetime.
pub mod Laws
pub mod Races
use aegis_gateway.Prelude.{
  ℕ, zero, suc, ◌+◌, Bool, true, false, ◌&&◌, Option, none, some, ltb, ◌==◌, if◌then◌else◌,
}

-- `negsuc n` is -(n + 1).
pub data ℤ : Type 0 where
  pos : ℕ → ℤ
  negsuc : ℕ → ℤ

unfoldable pub incr : ℤ → ℤ
incr (pos n) = pos (suc n)
incr (negsuc zero) = pos 0
incr (negsuc (suc n)) = negsuc n

unfoldable pub decr : ℤ → ℤ
decr (pos zero) = negsuc 0
decr (pos (suc n)) = pos n
decr (negsuc n) = negsuc (suc n)

-- `current > limit`
abbrev pub exceeds : ℤ → ℕ → Bool
exceeds (pos n) limit = ltb limit n
exceeds (negsuc n) limit = false

abbrev pub is_one : ℤ → Bool
is_one (pos n) = n == 1
is_one (negsuc n) = false

pub record Counter : Type 0 where
  pub value : ℤ
  pub expires_at : Option ℕ

-- `_CONCURRENCY_KEY_TTL_SECONDS`, in microseconds
abbrev pub concurrency_key_ttl : ℕ
concurrency_key_ttl = 300_000_000

abbrev pub is_live : ℕ → Counter → Bool
is_live now c = elim c.expires_at [ none ↦ true | some at ↦ ltb now at ]

-- What a command finds: a live counter, or one that starts at 0.
unfoldable pub found : ℕ → Option Counter → Counter
found now none = record { value = pos 0; expires_at = none }
found now (some c) = if is_live now c then c else record { value = pos 0; expires_at = none }

-- `redis.decr(key)`
unfoldable pub decr_key : ℕ → Option Counter → Counter
unfolding found decr
decr_key now key = let c = found now key in record c { value = decr c.value }

-- `redis.incr(key)`, and `redis.expire` if that made it 1
unfoldable pub incr_key : ℕ → Option Counter → Counter
unfolding found incr
incr_key now key =
    let c = found now key in
    let value = incr c.value in
    record {
      value = value;
      expires_at = if is_one value then some (now + concurrency_key_ttl) else c.expires_at;
    }

unfoldable pub acquire_concurrency_slot : ℕ → ℕ → Option Counter → Counter × Bool
acquire_concurrency_slot now limit key =
    let c = incr_key now key in
    if exceeds c.value limit then (decr_key now (some c), false) else (c, true)

unfoldable pub release_concurrency_slot : ℕ → Option Counter → Counter
release_concurrency_slot now key = decr_key now key
