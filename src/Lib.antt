-- ===== src/Lib.antt =====
-- Aegis Gateway: a multi-tenant, OpenAI-compatible gateway in front of chat-completion providers.
--
-- A request for POST /v1/chat/completions passes the handler of src/aegis_gateway/api/proxy.py: the
-- idempotency replay and lock, the choice of a provider, the rate limits, a concurrency slot, the
-- security pipeline, the completion cache, and the provider behind its retry loop and circuit
-- breaker. Along the way it writes audit events, usage records and counters. A streaming answer runs
-- its own clean-up after the handler has returned.
--
-- The files and the code that they model (paths below src/aegis_gateway, if they do not start with
-- alembic or scripts):
--   Proxy/Types, Proxy/Handler    api/proxy.py (chat_completions), services/cache.py, the counters
--                                 and rows of services/usage.py; World is one tenant's state in
--                                 Redis, the database session and the counters
--   Proxy/Stream                  api/proxy.py (_stream_chat_completion, _stream_cached_completion)
--   Proxy/Slots, Locks, Streams   proofs on the slots, the idempotency keys and the streams
--   Redis                         services/idempotency.py, and the keys of a tenant with lifetimes
--   RateLimit/Bucket, Budget      services/rate_limiter.py: the Lua scripts
--   RateLimit/Slots               the same: acquire_ and release_concurrency_slot; Slots/Races has
--                                 them as interleaved commands of racing requests
--   RateLimit/Enforce             the same: enforce_request_limits
--   Security, Security/Pipeline   detectors/pii.py, detectors/prompt_injection.py, and
--                                 api/proxy.py (_run_security_pipeline)
--   Security/Embeddings           services/embeddings.py and the embedding layer of
--                                 detectors/prompt_injection.py; Security/Corpus has its proofs
--   Breaker                       providers/circuit_breaker.py
--   Retry                         providers/retry.py
--   Upstream                      providers/openai_compatible.py (_run_with_breaker, _post_once,
--                                 chat_completion), core/metrics.py; Upstream/Outage has concurrent
--                                 calls over one breaker, Upstream/Sse the loop over the SSE lines,
--                                 Upstream/Connect the connect phase in front of it
--   ProviderError                 providers/errors.py, schemas/errors.py
--   Registry, Pricing             providers/registry.py, services/pricing.py; Registry/Adapters has
--                                 build_provider_registry and what an adapter sends
--   Chat, Context                 schemas/chat.py, schemas/auth.py, services/token_counter.py
--   Database                      services/audit.py, services/usage.py, db/session.py, db/models.py,
--                                 and the policies of alembic/versions/0001 and 0005
--   Migrations                    alembic/versions: Initial, RateLimits, SecurityPolicy, CacheToggle
--                                 and UsageTracking are 0001 to 0005, as lists of statements of
--                                 SQL's data definition language; Execution says what a statement
--                                 does to a schema, Described writes out the schema of each revision,
--                                 and Models the columns of db/models.py
--   Edge                          middleware/request_id.py, middleware/metrics.py, api/health.py, the
--                                 exception handler and the order of the layers in main.py
--   Startup                       main.py (create_app, lifespan), api/deps.py, and startup and
--                                 shutdown of workers/tasks.py
--   Authentication                middleware/auth.py, core/security.py (parse_api_key);
--                                 Authentication/Generation has generate_api_key
--   Admin, Admin/Tenants, Keys    api/admin.py (create_, get_, update_tenant, create_ and
--                                 revoke_api_key), schemas/admin.py, the constraints of db/models.py;
--                                 Plane is what the admin API shares with authentication
--   Admin/Requests                sequences of these requests; below it: their Steps, Success,
--                                 Invariant and audit Trail, and the machine on two maps that they
--                                 implement, with its conditions in Allowed (Spec)
--   Admin/Lifecycle               the same requests, interleaved with those of middleware/auth.py
--   Admin/Reports                 the handlers of api/admin.py that list rows
--   Admin/Login                   middleware/admin_auth.py, login of api/admin.py, the passwords and
--                                 tokens of core/security.py
--   Seed                          scripts/seed.py
--   Json                          values of a JSONB column, _json_safe of api/admin.py
--   Scan                          workers/tasks.py (budget_threshold_scan); Scan/Once has its runs in
--                                 a month
--   Rollup                        workers/tasks.py (_rollup_period); Rollup/Jobs has the hourly and the
--                                 daily job and the schedule of workers/settings.py
--   CodePoints                    the methods of str that look into a text
--   Environment                   the functions that the code calls and that are not its own
--   Prelude                       shared names, Boolean tests and list helpers
--   Scenario, and each Tests      concrete data, and theorems applied to them
--
-- Functions keep the code's names; a handler is cut at its early returns into one function for each
-- part. State is passed explicitly; an exception is a value of the reply. Redis commands and Lua
-- scripts are atomic steps.
--
-- Numbers: time is in microseconds, in Admin/Login in seconds. Tokens of a bucket are in units of 1/60,000,000, spend in units
-- of 10^-8 US dollars and scores in thousandths, which makes the arithmetic exact where the code uses
-- floats; their rounding is not modelled. Python's and Redis's integers are unbounded here; Redis's
-- signed counter may be negative, and is a ℤ of our own.
--
-- SQL's statements act on a schema as PostgreSQL documents them, as far as the migrations use them;
-- a database before the first revision is any schema that has nothing of the gateway's.
--
-- Loops are structural. The retry loop runs on `max_attempts`, which is the code's own bound, and
-- cannot run out of it.
--
-- Functions outside the repository are fields of `Env` or arguments: the tokenizer, Presidio, the
-- regular expressions, the cosine of two vectors, JSON, SHA-256, random bytes, the calendar, PyJWT, argon2, the
-- validation of an email address, the database's ORDER BY, and the HTTP client, whose answers are data.
-- The tokenizer and Presidio may raise, which nothing in the handler catches; and the INSERT of an
-- audit event or a usage record is refused if the correlation id, or the model's name, is too long
-- for its column. What these exceptions leave behind is part of each handler. Other bounds of columns
-- (names, limits and budgets of tenants) are left out, and so are a database or a Redis that is
-- unreachable.
--
-- Not modelled: reading the settings, logging, tracing, the metrics page, alembic/env.py, and the
-- validation of requests by FastAPI. A request runs at one instant of the clock;
-- interleavings are modelled where they matter, for the slots and the breaker, and requests to the
-- admin API come one after the other. A cancellation that arrives again in the
-- `finally` of a stream is not modelled.
pub mod Prelude
pub mod CodePoints
pub mod Json
pub mod Authentication
pub mod Admin
pub mod ProviderError
pub mod Breaker
pub mod Retry
pub mod Startup
pub mod Upstream
pub mod Registry
pub mod Context
pub mod Chat
pub mod Database
pub mod Security
pub mod Seed
pub mod Edge
pub mod Environment
pub mod Migrations
pub mod Pricing
pub mod RateLimit
pub mod Redis
pub mod Proxy
pub mod Rollup
pub mod Scan
pub mod Scenario
