-- ===== src/Proxy/Types.antt =====
-- The state of one tenant that a request changes, its answers, and the operations that they share.
use aegis_gateway.Prelude.{
  ℕ, ◌+◌, String, Bool, true, false, not, Option, none, some, List, [], ◌∷◌, ◌++◌, ◌≟◌,
  if◌then◌else◌,
}
use aegis_gateway.ProviderError.{HttpException}
use aegis_gateway.Context.{TenantContext}
use aegis_gateway.Chat.{ChatCompletionRequest, ChatCompletionResponse, Usage}
use aegis_gateway.Upstream.{Call}
use aegis_gateway.Pricing.{calculate_cost_usd}
use aegis_gateway.RateLimit.Slots.{release_concurrency_slot}
use aegis_gateway.Redis.{Redis, release_lock, store_response}
use aegis_gateway.Database.{usage_storable, write_usage}
use aegis_gateway.Environment.{Env}
use aegis_gateway.Security.Pipeline.{Trail, Metric, chat_completions, usage_cost, usage_tokens}

pub record World : Type 0 where
  pub now : ℕ
  pub redis : Redis
  pub trail : Trail

-- One chunk of an upstream's stream: its JSON, and the contents of its choices' deltas.
pub record Chunk : Type 0 where
  pub json : String
  pub contents : List String

-- How `stream_chat_completion` ends: normally, by a `ProviderError` with its message, or by an exception
-- of another kind, such as a broken connection.
pub data StreamEnd : Type 0 where
  complete : StreamEnd
  failed : String → StreamEnd
  broken : StreamEnd

pub record Stream : Type 0 where
  pub chunks : List Chunk
  pub end : StreamEnd

-- src/aegis_gateway/providers/base.py: what the handler asks of an adapter.
pub record Provider : Type 0 where
  pub name : String
  pub chat_completion : ChatCompletionRequest → Call ChatCompletionResponse
  pub stream_chat_completion : ChatCompletionRequest → Stream

-- The header X-Cache, or Idempotency-Replayed.
pub data Header : Type 0 where
  hit miss replayed : Header

-- A streaming answer that has not been sent yet.
pub data Job : Type 0 where
  cached : ChatCompletionResponse → Provider → Job
  live : Provider → ChatCompletionRequest → (prompt_tokens : ℕ) (cache_key : Option String) → Job

-- `crashed` is an exception that is no `HTTPException`.
pub data Reply : Type 0 where
  json : String → Header → Reply
  http : HttpException → Reply
  streaming : Job → Reply
  crashed : Reply

-- `if idempotency_key:`
abbrev pub given : Option String → Option String
given none = none
given (some key) = if key ≟ "" then none else some key

-- What the dependencies hand to the handler, and the settings that it reads.
pub record Caller : Type 0 where
  pub tenant : TenantContext
  pub correlation_id : Option String
  pub idempotency_key : Option String
  pub cache_ttl_seconds : ℕ

-- `await release_concurrency_slot(…)`
unfoldable pub release_slot : World → World
release_slot w = record w {
  redis = record w.redis { slots = some (release_concurrency_slot w.now w.redis.slots) };
}

unfoldable pub count : Metric → World → World
count metric w = record w { trail = record w.trail { metrics = w.trail.metrics ++ metric ∷ [] } }

module _ (c : Caller) where
  unlock_given : Option String → Redis → Redis
  unlock_given none r = r
  unlock_given (some key) r = release_lock key r

  -- `if idempotency_key: await release_lock(…)`
  unfoldable pub unlock : World → World
  unfolding unlock_given
  unlock w = record w { redis = unlock_given (given c.idempotency_key) w.redis }

  answer_given : Option String → ℕ → String → Redis → Redis
  answer_given none now response_json r = r
  answer_given (some key) now response_json r =
      release_lock key (store_response now key response_json r)

  -- `if idempotency_key: await store_response(…); await release_lock(…)`
  unfoldable pub keep_answer : String → World → World
  unfolding answer_given
  keep_answer response_json w = record w {
    redis = answer_given (given c.idempotency_key) w.now response_json w.redis;
  }

module _ (env : Env) (c : Caller) where
  -- `record_usage` of src/aegis_gateway/services/usage.py; it raises in the commit, before the metrics, where
  -- `usage_storable` does not hold
  unfoldable pub record_usage : Provider → String → ℕ → ℕ → Bool → World → World
  record_usage provider model prompt_tokens completion_tokens cache_hit w =
      let cost_usd = calculate_cost_usd model prompt_tokens completion_tokens provider.name in
      record w {
        trail = record {
          db =
              write_usage
                (record {
                  tenant_id = c.tenant.tenant_id;
                  api_key_id = c.tenant.api_key_id;
                  provider = provider.name;
                  model = model;
                  prompt_tokens = prompt_tokens;
                  completion_tokens = completion_tokens;
                  total_tokens = prompt_tokens + completion_tokens;
                  cost_usd = env.round_6 cost_usd;
                  cache_hit = cache_hit;
                  correlation_id = c.correlation_id;
                })
                w.trail.db;
          metrics =
              if usage_storable model c.correlation_id
              then w.trail.metrics
                ++ chat_completions provider.name "success"
                  ∷ usage_cost provider.name cost_usd
                  ∷ usage_tokens provider.name "prompt" prompt_tokens
                  ∷ usage_tokens provider.name "completion" completion_tokens
                  ∷ []
              else w.trail.metrics;
        };
      }

  record_given : Provider → String → Option Usage → World → World
  record_given provider model none w = w
  record_given provider model (some usage) w =
      record_usage provider model usage.prompt_tokens usage.completion_tokens true w

  -- It has usage to record, and that does not fit.
  unfoldable pub cached_raises : String → Option Usage → Bool
  cached_raises model none = false
  cached_raises model (some usage) = not (usage_storable model c.correlation_id)

  -- `if response.usage is not None: await record_usage(…, cache_hit=True)`
  unfoldable pub record_cached : Provider → String → ChatCompletionResponse → World → World
  unfolding record_given
  record_cached provider model response w = record_given provider model response.usage w
