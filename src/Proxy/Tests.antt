-- ===== src/Proxy/Tests.antt =====
-- A request on concrete data: answered, replayed, streamed and cut short.
use aegis_gateway.Prelude.{◌+◌, ◌<◌, ◌≡◌, refl, true, false, none, some, arith, ◌≟◌}
use aegis_gateway.Chat.{count_prompt_tokens, count_text_tokens}
use aegis_gateway.Database.{storable, usage_storable}
use aegis_gateway.Pricing.{estimate_prompt_cost_usd, price_for}
use aegis_gateway.RateLimit.Bucket.{check_token_bucket}
use aegis_gateway.RateLimit.Enforce.{enforce_request_limits}
use aegis_gateway.RateLimit.Slots.{acquire_concurrency_slot, found, incr, incr_key}
use aegis_gateway.Redis.{get, try_acquire_lock, release_lock, store_response, get_cached_response}
use aegis_gateway.Redis.Laws.{lock_excludes}
use aegis_gateway.Registry.{resolve}
use aegis_gateway.Security.{redact, redact_messages, detect}
use aegis_gateway.Security.Pipeline.{
  user_texts, join_lines, run_security_pipeline, redacted, redaction, detection, detected,
  judged as judged_score,
}
use aegis_gateway.Proxy.Types.{World, json, miss, replayed, release_slot, keep_answer, record_usage}
use aegis_gateway.Proxy.Handler.{
  chat_completions, kept_answer, replay, acquire_lock, locked, provider_for, routed, rate_limit,
  rate_limited, answer_with, limited, slotted, security_pipeline, judged, cache_lookup, on_miss,
  answered_by, answer, store_given, usage_of,
}
use aegis_gateway.Proxy.Stream.{collected, join, take}
use aegis_gateway.Proxy.Slots.{Balanced, chat_completions-Balanced}
use aegis_gateway.Proxy.Locks.{Settles, chat_completions-Settles, idempotent}
use aegis_gateway.Proxy.Streams.{cache_after, stored_text, ended_cached, left_cached}
use aegis_gateway.Scenario.{env, caller, provider, providers, asking, world}

-- The request's answer, and the state that it leaves.
abbrev answered : World
answered = (chat_completions env caller providers (asking "hi") world).0

answer_of : (chat_completions env caller providers (asking "hi") world).1 ≡ json "r1" miss
unfolding chat_completions kept_answer replay acquire_lock locked provider_for routed rate_limit
    rate_limited limited slotted security_pipeline judged cache_lookup on_miss answered_by answer
    answer_with usage_of usage_storable storable enforce_request_limits estimate_prompt_cost_usd
    price_for check_token_bucket acquire_concurrency_slot found incr incr_key get_cached_response
    get try_acquire_lock resolve count_prompt_tokens redact_messages detect user_texts join_lines
    run_security_pipeline redaction detected detection judged_score redacted redact
answer_of = refl

chat_completions-Balanced_example :
    Balanced world answered (chat_completions env caller providers (asking "hi") world).1
chat_completions-Balanced_example =
    chat_completions-Balanced env caller providers (asking "hi") world

chat_completions-Settles_example :
    Settles caller "key" answered (chat_completions env caller providers (asking "hi") world).1
chat_completions-Settles_example =
    chat_completions-Settles env caller "key" refl providers (asking "hi") world

answered_at : 5_000 < answered.now + 86_400_000_000
unfolding chat_completions kept_answer replay acquire_lock locked provider_for routed rate_limit
    rate_limited limited slotted security_pipeline judged cache_lookup on_miss answered_by answer
    answer_with usage_of usage_storable storable enforce_request_limits estimate_prompt_cost_usd
    price_for check_token_bucket acquire_concurrency_slot found incr incr_key get_cached_response
    get try_acquire_lock resolve count_prompt_tokens redact_messages detect user_texts join_lines
    run_security_pipeline redaction detected detection judged_score redacted redact keep_answer
    release_slot record_usage store_response release_lock store_given
answered_at = ground arith

abbrev repeated : World
repeated = record answered { now = 5_000 }

idempotent_example :
    chat_completions env caller providers (asking "hi") repeated ≡ (repeated, json "r1" replayed)
idempotent_example =
    idempotent env caller "key" refl providers (asking "hi") world "r1" 5_000 refl answer_of
      answered_at

got : (try_acquire_lock 100 "key" world.redis).1 ≡ true
unfolding try_acquire_lock get
got = refl

lock_excludes_example :
    ((try_acquire_lock 60_000_100 "key" (try_acquire_lock 100 "key" world.redis).0).1 ≡ true)
    × ((try_acquire_lock 60_000_100 "key"
          (release_lock "key" (try_acquire_lock 100 "key" world.redis).0)).1
        ≡ true)
lock_excludes_example = lock_excludes 100 60_000_100 "key" world.redis got

text_not_empty : (collected (provider.stream_chat_completion (asking "hi")).chunks ≟ "") ≡ false
unfolding collected join
text_not_empty = refl

-- The upstream broke after two chunks, and "hello" is cached.
ended_cached_example :
    get 1_000 "d" (cache_after env caller provider (asking "hi") 5 "d" world none)
    ≡ some (stored_text env caller provider (asking "hi") 5 1 1_000 "hello")
unfolding collected join count_text_tokens usage_storable storable
ended_cached_example =
    ended_cached env caller provider (asking "hi") 5 "d" world (ground arith) text_not_empty

part_not_empty :
    (collected (take 1 (provider.stream_chat_completion (asking "hi")).chunks) ≟ "") ≡ false
unfolding collected join
part_not_empty = refl

-- The client left after the first chunk, and "hel" is cached.
left_cached_example :
    get 1_000 "d" (cache_after env caller provider (asking "hi") 5 "d" world (some 1))
    ≡ some (stored_text env caller provider (asking "hi") 5 1 1_000 "hel")
unfolding collected join count_text_tokens usage_storable storable
left_cached_example =
    left_cached env caller provider (asking "hi") 5 "d" world (ground arith) 1 (ground arith)
      part_not_empty
