-- ===== src/Redis.antt =====
-- The Redis keys of one tenant, and the operations of src/aegis_gateway/services/idempotency.py and
-- services/cache.py on them. Every key embeds the tenant's id. Times are in microseconds; a key with
-- a lifetime reads as missing from its end on.
pub mod Laws
use aegis_gateway.Prelude.{
  ℕ, ◌+◌, ◌*◌, String, Bool, true, false, Option, none, some, ltb, ◌≟◌, if◌then◌else◌,
}
use aegis_gateway.RateLimit.Enforce.{Limits}
use aegis_gateway.RateLimit.Slots.{Counter}

pub record Entry : Type 0 where
  pub value : String
  pub expires_at : ℕ

-- `locks` and `responses` are keyed by the idempotency key, `cache` by the request's digest.
pub record Redis : Type 0 where
  pub limits : Limits
  pub slots : Option Counter
  pub locks : String → Option Entry
  pub responses : String → Option Entry
  pub cache : String → Option Entry

abbrev pub read : ℕ → Option Entry → Option String
read now none = none
read now (some e) = if ltb now e.expires_at then some e.value else none

-- GET
unfoldable pub get : ℕ → String → (String → Option Entry) → Option String
get now key table = read now (table key)

-- SET with a lifetime in seconds
unfoldable pub put : ℕ → String → String → ℕ → (String → Option Entry) → String → Option Entry
put now key value seconds table k =
    if key ≟ k
    then some (record { value = value; expires_at = now + seconds * 1_000_000 })
    else table k

-- DEL
unfoldable pub del : String → (String → Option Entry) → String → Option Entry
del key table k = if key ≟ k then none else table k

abbrev pub lock_ttl_seconds : ℕ
lock_ttl_seconds = 60

abbrev pub replay_cache_ttl_seconds : ℕ
replay_cache_ttl_seconds = 86_400

unfoldable pub get_cached_response : ℕ → String → Redis → Option String
get_cached_response now key r = get now key r.responses

set_nx : ℕ → String → Redis → Option String → Redis × Bool
set_nx now key r (some held) = (r, false)
set_nx now key r none = (record r { locks = put now key "1" lock_ttl_seconds r.locks }, true)

-- `SET … NX EX`
unfoldable pub try_acquire_lock : ℕ → String → Redis → Redis × Bool
unfolding set_nx
try_acquire_lock now key r = set_nx now key r (get now key r.locks)

unfoldable pub store_response : ℕ → String → String → Redis → Redis
store_response now key response_json r = record r {
  responses = put now key response_json replay_cache_ttl_seconds r.responses;
}

unfoldable pub release_lock : String → Redis → Redis
release_lock key r = record r { locks = del key r.locks }
