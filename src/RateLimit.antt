-- ===== src/RateLimit.antt =====
-- src/aegis_gateway/services/rate_limiter.py: the token buckets, the budget and the concurrency slots, as
-- the Lua scripts and Redis commands compute them, and their order in `enforce_request_limits`.
-- Time is in microseconds, as Redis's TIME gives it. A key that has expired reads as missing.
pub mod Bucket
pub mod Budget
pub mod Slots
pub mod Enforce
pub mod Tests
