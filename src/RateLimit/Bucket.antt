-- ===== src/RateLimit/Bucket.antt =====
-- `_TOKEN_BUCKET_LUA` and `check_token_bucket`. Tokens are counted in units of 1/60,000,000 token, so
-- that a limit of n tokens a minute refills n units in a microsecond: the script's numbers without the
-- rounding of Lua's floats and of its `tostring`.
pub mod Laws
use aegis_gateway.Prelude.{
  ℕ, ◌+◌, ◌-◌, ◌*◌, min, Bool, true, false, Option, none, some, leb, ltb, if◌then◌else◌,
}

-- `HMSET bucket_key tokens updated_at` with the time at which `EXPIRE` drops the key.
pub record Bucket : Type 0 where
  pub tokens : ℕ
  pub updated_at : ℕ
  pub expires_at : ℕ

pub record LimitResult : Type 0 where
  pub allowed : Bool
  pub remaining : ℕ

-- units in a token
abbrev pub token : ℕ
token = 60_000_000

-- `_BUCKET_KEY_TTL_SECONDS`, in microseconds
abbrev pub bucket_key_ttl : ℕ
bucket_key_ttl = 3_600_000_000

-- `HMGET`: nothing is read from a key that is missing or expired.
abbrev pub live : ℕ → Option Bucket → Option Bucket
live now none = none
live now (some b) = if ltb now b.expires_at then some b else none

-- `tokens` after the refill; `now - updated_at` stops at 0, as `math.max` makes it.
unfoldable pub refilled : ℕ → ℕ → ℕ → Option Bucket → ℕ
refilled now capacity refill none = min capacity (capacity + 0 * refill)
refilled now capacity refill (some b) = min capacity (b.tokens + (now - b.updated_at) * refill)

pub spent : ℕ → ℕ → ℕ → Bucket × LimitResult
spent now tokens requested =
    let allowed = leb requested tokens in
    let left = if allowed then tokens - requested else tokens in
    (
      record { tokens = left; updated_at = now; expires_at = now + bucket_key_ttl },
      record { allowed = allowed; remaining = left },
    )

-- The new value of the key, and the result.
unfoldable pub check_token_bucket : ℕ → ℕ → ℕ → ℕ → Option Bucket → Bucket × LimitResult
unfolding refilled spent
check_token_bucket now capacity refill requested key =
    spent now (refilled now capacity refill (live now key)) requested
