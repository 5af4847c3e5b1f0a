-- ===== src/Proxy/Handler.antt =====
-- `chat_completions`. Log lines, spans and the histogram of call durations are left out.
use aegis_gateway.Prelude.{ℕ, ◌+◌, String, Bool, true, false, Option, none, some, if◌then◌else◌}
use aegis_gateway.ProviderError.{openai_error, provider_error_to_http_exception}
use aegis_gateway.Chat.{
  ChatCompletionRequest, ChatCompletionResponse, Usage, completion_text, count_prompt_tokens,
  count_text_tokens,
}
use aegis_gateway.Upstream.{Call, value, error, escaped, assertion}
use aegis_gateway.Registry.{resolve}
use aegis_gateway.Database.{usage_storable}
use aegis_gateway.Environment.{Env}
use aegis_gateway.RateLimit.Enforce.{
  Exceeded, code, retry_after_seconds, Limits, enforce_request_limits,
}
use aegis_gateway.RateLimit.Slots.{Counter, acquire_concurrency_slot}
use aegis_gateway.Redis.{Redis, get, put, get_cached_response, try_acquire_lock}
use aegis_gateway.Security.Pipeline.{
  cache_lookups, rate_limit_rejections, chat_completions as completions, Verdict, passed, blocked,
  crashed as failed_detection, run_security_pipeline,
}
use aegis_gateway.Proxy.Types.{
  World, Provider, hit, miss, replayed, cached, live, Reply, json, http, streaming, crashed, given,
  Caller, release_slot, unlock, keep_answer, count, record_usage, cached_raises, record_cached,
}

-- src/aegis_gateway/services/cache.py: the digest is what the tenant's cache is keyed by.
unfoldable pub compute_cache_key : Env → ChatCompletionRequest → String
compute_cache_key env body =
    env.digest (record { model = body.model; messages = body.messages; extra = body.extra })

unfoldable pub store_cached_completion : Env → ℕ → String → ChatCompletionResponse → World → World
store_cached_completion env ttl_seconds key response w = record w {
  redis = record w.redis {
    cache = put w.now key (env.dump_json response) ttl_seconds w.redis.cache;
  };
}

module _ (env : Env) (c : Caller) where
  unfoldable pub store_given : Option String → ChatCompletionResponse → World → World
  store_given none response w = w
  store_given (some key) response w = store_cached_completion env c.cache_ttl_seconds key response w

  -- `HTTPException`s that are raised after the lock is released.
  unfoldable pub refuse : ℕ → String → String → Option ℕ → World → World × Reply
  refuse status_code error_type reason retry_after w = (
    unlock c w,
    http (record {
      status_code = status_code;
      detail = openai_error (env.describe reason) error_type reason;
      retry_after = retry_after;
    }),
  )

  counted : ℕ → Option ℕ → Option Usage
  counted prompt_tokens none = none
  counted prompt_tokens (some completion_tokens) = some (record {
    prompt_tokens = prompt_tokens;
    completion_tokens = completion_tokens;
    total_tokens = prompt_tokens + completion_tokens;
  })

  -- The usage that the provider reports, or counts of the gateway's own; none if the tokenizer raises.
  unfoldable pub usage_of :
      ChatCompletionRequest → ℕ → ChatCompletionResponse → Option Usage → Option Usage
  unfolding counted
  usage_of body prompt_tokens response (some usage) = some usage
  usage_of body prompt_tokens response none =
      counted prompt_tokens
        (count_text_tokens env.encode_length (completion_text response.choices) body.model)

  -- From the usage to the answer.
  unfoldable pub answer_with :
      Provider
      → ChatCompletionRequest
      → Option String
      → ChatCompletionResponse
      → Option Usage
      → World
      → World × Reply
  unfolding store_given
  answer_with p body cache_key raw none w = (w, crashed)
  answer_with p body cache_key raw (some usage) w =
      let response = record raw { usage = some usage } in
      let stored = store_given cache_key response w in
      let used =
        record_usage env c p body.model usage.prompt_tokens usage.completion_tokens false stored in
      let response_json = env.dump_json response in
      if usage_storable body.model c.correlation_id
      then (keep_answer c response_json used, json response_json miss)
      else (used, crashed)

  -- From the end of the provider's call to the answer.
  unfoldable pub answer :
      Provider
      → ChatCompletionRequest
      → ℕ
      → Option String
      → ChatCompletionResponse
      → World
      → World × Reply
  answer p body prompt_tokens cache_key raw w =
      answer_with p body cache_key raw (usage_of body prompt_tokens raw raw.usage) w

  -- The call itself, with its `except` and its `finally`.
  unfoldable pub answered_by :
      Provider
      → ChatCompletionRequest
      → ℕ
      → Option String
      → Call ChatCompletionResponse
      → World
      → World × Reply
  answered_by p body prompt_tokens cache_key (value response) w =
      answer p body prompt_tokens cache_key response (release_slot w)
  answered_by p body prompt_tokens cache_key (error e) w = (
    release_slot (unlock c (count (completions p.name "error") w)),
    http (provider_error_to_http_exception env.first_500 e),
  )
  answered_by p body prompt_tokens cache_key (escaped message) w = (release_slot w, crashed)
  answered_by p body prompt_tokens cache_key assertion w = (release_slot w, crashed)

  unfoldable pub on_miss :
      Provider → ChatCompletionRequest → ℕ → Option String → World → World × Reply
  on_miss p body prompt_tokens cache_key w =
      if body.stream
      then (w, streaming (live p body prompt_tokens cache_key))
      else answered_by p body prompt_tokens cache_key (p.chat_completion body) w

  unfoldable pub on_hit :
      Provider → ChatCompletionRequest → ChatCompletionResponse → World → World × Reply
  on_hit p body response w =
      let released = release_slot w in
      let response_json = env.dump_json response in
      let used = record_cached env c p body.model response released in
      if body.stream
      then (released, streaming (cached response p))
      else if cached_raises env c body.model response.usage
      then (used, crashed)
      else (keep_answer c response_json used, json response_json hit)

  -- `get_cached_completion` validates what it read; the count comes after it.
  unfoldable pub loaded :
      Provider → ChatCompletionRequest → Option ChatCompletionResponse → World → World × Reply
  loaded p body none w = (w, crashed)
  loaded p body (some response) w = on_hit p body response (count (cache_lookups true) w)

  unfoldable pub looked_up :
      Provider → ChatCompletionRequest → ℕ → String → Option String → World → World × Reply
  looked_up p body prompt_tokens key none w =
      on_miss p body prompt_tokens (some key) (count (cache_lookups false) w)
  looked_up p body prompt_tokens key (some raw) w = loaded p body (env.load_json raw) w

  unfoldable pub cache_lookup : Provider → ChatCompletionRequest → ℕ → World → World × Reply
  cache_lookup p body prompt_tokens w =
      let key = compute_cache_key env body in
      if c.tenant.cache_enabled
      then looked_up p body prompt_tokens key (get w.now key w.redis.cache) w
      else on_miss p body prompt_tokens none w

  unfoldable pub judged : Provider → ℕ → Verdict → World → World × Reply
  judged p prompt_tokens (passed body) w = cache_lookup p body prompt_tokens w
  judged p prompt_tokens blocked w =
      refuse 403 "invalid_request_error" "prompt_injection_detected" none
        (release_slot (count (completions p.name "blocked") w))
  judged p prompt_tokens failed_detection w = (w, crashed)

  unfoldable pub security_pipeline : Provider → ChatCompletionRequest → ℕ → World → World × Reply
  security_pipeline p body prompt_tokens w =
      let (trail, verdict) = run_security_pipeline env c.tenant c.correlation_id body w.trail in
      judged p prompt_tokens verdict (record w { trail = trail })

  unfoldable pub too_many : Provider → String → Option ℕ → World → World × Reply
  too_many p reason retry_after w =
      refuse 429 "rate_limit_error" reason retry_after
        (count (completions p.name "rate_limited") (count (rate_limit_rejections reason) w))

  unfoldable pub slotted :
      Provider → ChatCompletionRequest → ℕ → Counter × Bool → World → World × Reply
  slotted p body prompt_tokens (slots, acquired) w =
      let w' = record w { redis = record w.redis { slots = some slots } } in
      if acquired
      then security_pipeline p body prompt_tokens w'
      else too_many p "concurrency_limit_exceeded" (some 1) w'

  unfoldable pub limited :
      Provider → ChatCompletionRequest → ℕ → Limits × Option Exceeded → World → World × Reply
  limited p body prompt_tokens (limits, exceeded) w =
      let w' = record w { redis = record w.redis { limits = limits } } in
      elim exceeded [
        | some e ↦ too_many p (code e) (retry_after_seconds e) w'
        | none ↦
            slotted p body prompt_tokens
              (acquire_concurrency_slot w.now c.tenant.max_concurrent_requests w.redis.slots) w'
      ]

  unfoldable pub rate_limited : Provider → ChatCompletionRequest → Option ℕ → World → World × Reply
  rate_limited p body none w = (w, crashed)
  rate_limited p body (some prompt_tokens) w =
      limited p body prompt_tokens
        (enforce_request_limits w.now (env.month_of w.now) c.tenant p.name body.model prompt_tokens
          w.redis.limits)
        w

  unfoldable pub rate_limit : Provider → ChatCompletionRequest → World → World × Reply
  rate_limit p body w =
      rate_limited p body (count_prompt_tokens env.encode_length body.messages body.model) w

  unfoldable pub routed : ChatCompletionRequest → Option Provider → World → World × Reply
  routed body none w = refuse 400 "invalid_request_error" "model_not_found" none w
  routed body (some p) w = rate_limit p body w

  module _ (providers : String → Option Provider) (body : ChatCompletionRequest) where
    unfoldable pub provider_for : World → World × Reply
    provider_for w = routed body (resolve providers body.model) w

    unfoldable pub locked : Redis × Bool → World → World × Reply
    locked (redis, true) w = provider_for (record w { redis = redis })
    locked (redis, false) w = (
      record w { redis = redis },
      http (record {
        status_code = 409;
        detail =
            openai_error (env.describe "idempotency_key_in_use") "invalid_request_error"
              "idempotency_key_in_use";
        retry_after = none;
      }),
    )

    unfoldable pub acquire_lock : Option String → World → World × Reply
    acquire_lock none w = provider_for w
    acquire_lock (some key) w = locked (try_acquire_lock w.now key w.redis) w

    unfoldable pub replay : Option String → Option String → World → World × Reply
    replay key (some body_json) w = (w, json body_json replayed)
    replay key none w = acquire_lock key w

    unfoldable pub kept_answer : Option String → World → Option String
    kept_answer none w = none
    kept_answer (some key) w = if body.stream then none else get_cached_response w.now key w.redis

    unfoldable pub chat_completions : World → World × Reply
    chat_completions w = let key = given c.idempotency_key in replay key (kept_answer key w) w
