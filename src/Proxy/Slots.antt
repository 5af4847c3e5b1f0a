-- ===== src/Proxy/Slots.antt =====
-- A request gives back the concurrency slot that it takes.
pub mod Held
use aegis_gateway.Prelude.{
  ℕ, ◌≡◌, refl, ◌⊎◌, inl, inr, String, Bool, true, false, Option, none, some, arith, ap, ◌∙◌,
  Bool-cases,
}
use aegis_gateway.Chat.{ChatCompletionRequest, ChatCompletionResponse}
use aegis_gateway.Upstream.{Call, value, error, escaped, assertion}
use aegis_gateway.Registry.{resolve}
use aegis_gateway.Environment.{Env}
use aegis_gateway.RateLimit.Enforce.{Exceeded, Limits}
use aegis_gateway.RateLimit.Slots.{
  incr, Counter, acquire_concurrency_slot, release_concurrency_slot,
}
use aegis_gateway.RateLimit.Slots.Laws.{slots, acquire_lem, slots-acquire}
use aegis_gateway.Redis.{Redis, get, try_acquire_lock, release_lock, store_response}
use aegis_gateway.Security.Pipeline.{
  Verdict, passed, blocked, crashed as failed_detection, run_security_pipeline,
}
use aegis_gateway.Proxy.Types.{
  World, Provider, cached, live, Reply, json, http, streaming, crashed, given, Caller, release_slot,
  unlock, keep_answer, count, record_usage, record_cached,
}
use aegis_gateway.Proxy.Handler.{
  compute_cache_key, store_cached_completion, refuse, answer, answered_by, on_miss, on_hit, loaded,
  looked_up, cache_lookup, judged, security_pipeline, too_many, slotted, limited, rate_limited,
  rate_limit, routed, provider_for, locked, acquire_lock, replay, chat_completions,
}
use aegis_gateway.Proxy.Slots.Held.{Frees, unlock-Keeps, security_pipeline-Frees}

-- The tenant's count of slots before a request and after its answer.
abbrev pub Balanced : World → World → Reply → Type 0
Balanced w w' (streaming (live p body prompt_tokens cache_key)) =
    slots w.now w'.redis.slots ≡ incr (slots w.now w.redis.slots)
Balanced w w' crashed =
    (slots w.now w'.redis.slots ≡ slots w.now w.redis.slots)
    ⊎ (slots w.now w'.redis.slots ≡ incr (slots w.now w.redis.slots))
Balanced w w' _ = slots w.now w'.redis.slots ≡ slots w.now w.redis.slots

-- Freeing a slot that was acquired balances the count.
Balanced-of_Frees :
    (w v w' : World) (reply : Reply) (c : Counter)
    → v.redis.slots ≡ some c
    → v.now ≡ w.now
    → slots w.now (some c) ≡ incr (slots w.now w.redis.slots)
    → slots w.now (some (release_concurrency_slot w.now (some c))) ≡ slots w.now w.redis.slots
    → Frees v w' reply
    → Balanced w w' reply
Balanced-of_Frees w v w' (json s h) c e t up down f = cc
Balanced-of_Frees w v w' (http x) c e t up down f = cc
Balanced-of_Frees w v w' (streaming (cached r p)) c e t up down f = cc
Balanced-of_Frees w v w' (streaming (live p body n key)) c e t up down f = cc
Balanced-of_Frees w v w' crashed c e t up down (inl kept) = inr (cc)
Balanced-of_Frees w v w' crashed c e t up down (inr freed) = inl (cc)

Balanced-of_same :
    (w v w' : World) (reply : Reply)
    → v.now ≡ w.now
    → v.redis.slots ≡ w.redis.slots
    → Balanced v w' reply
    → Balanced w w' reply
Balanced-of_same w v w' (json s h) t e b = cc
Balanced-of_same w v w' (http x) t e b = cc
Balanced-of_same w v w' (streaming (cached r p)) t e b = cc
Balanced-of_same w v w' (streaming (live p body n key)) t e b = cc
Balanced-of_same w v w' crashed t e (inl kept) = inl (cc)
Balanced-of_same w v w' crashed t e (inr taken) = inr (cc)

module _ (env : Env) (c : Caller) where
  too_many-Balanced :
      (p : Provider) (reason : String) (retry_after : Option ℕ) (w v : World)
      → slots w.now v.redis.slots ≡ slots w.now w.redis.slots
      → let r = too_many env c p reason retry_after v in Balanced w r.0 r.1
  unfolding too_many refuse count
  too_many-Balanced p reason retry_after w v same = ap (slots w.now) (unlock-Keeps env c _).0 ∙ same

  slotted-Balanced :
      (p : Provider) (body : ChatCompletionRequest) (n : ℕ) (w : World)
      → let r =
          slotted env c p body n
            (acquire_concurrency_slot w.now c.tenant.max_concurrent_requests w.redis.slots)
            w in
        Balanced w r.0 r.1
  unfolding slotted
  slotted-Balanced p body n w =
      let limit = c.tenant.max_concurrent_requests in
      let key = w.redis.slots in
      let r = acquire_concurrency_slot w.now limit key in
      let v : World = record w { redis = record w.redis { slots = some r.0 } } in
      elim (Bool-cases r.1) [
        | inl given ↦ simp given (
            let s = security_pipeline env c p body n v in
            Balanced-of_Frees w v s.0 s.1 r.0 refl refl (slots-acquire w.now limit key given)
              ((acquire_lem w.now limit key).1 given) (security_pipeline-Frees env c p body n v))
        | inr refused ↦
            simp refused (too_many-Balanced p _ _ w v ((acquire_lem w.now limit key).0 refused))
      ]

  limited-Balanced :
      (p : Provider) (body : ChatCompletionRequest) (n : ℕ) (r : Limits × Option Exceeded)
      (w : World)
      → let s = limited env c p body n r w in Balanced w s.0 s.1
  unfolding limited
  limited-Balanced p body n (limits, some e) w = too_many-Balanced p _ _ w _ refl
  limited-Balanced p body n (limits, none) w =
      slotted-Balanced p body n (record w { redis = record w.redis { limits = limits } })

  rate_limited-Balanced :
      (p : Provider) (body : ChatCompletionRequest) (o : Option ℕ) (w : World)
      → let r = rate_limited env c p body o w in Balanced w r.0 r.1
  unfolding rate_limited
  rate_limited-Balanced p body none w = inl refl
  rate_limited-Balanced p body (some n) w = limited-Balanced p body n _ w

  routed-Balanced :
      (body : ChatCompletionRequest) (o : Option Provider) (w : World)
      → let r = routed env c body o w in Balanced w r.0 r.1
  unfolding routed refuse rate_limit
  routed-Balanced body none w = ap (slots w.now) (unlock-Keeps env c w).0
  routed-Balanced body (some p) w = rate_limited-Balanced p body _ w

  module _ (providers : String → Option Provider) (body : ChatCompletionRequest) where
    provider_for-Balanced :
        (w : World) → let r = provider_for env c providers body w in Balanced w r.0 r.1
    unfolding provider_for
    provider_for-Balanced w = routed-Balanced body (resolve providers body.model) w

    locked-Balanced :
        (redis : Redis) (acquired : Bool) (w : World)
        → redis.slots ≡ w.redis.slots
        → let r = locked env c providers body (redis, acquired) w in Balanced w r.0 r.1
    unfolding locked
    locked-Balanced redis false w same = ap (slots w.now) same
    locked-Balanced redis true w same =
        let v = record w { redis = redis } in
        let r = provider_for env c providers body v in
        Balanced-of_same w v r.0 r.1 refl same (provider_for-Balanced v)

    try_acquire_lock-Keeps :
        (now : ℕ) (key : String) (r : Redis) → (try_acquire_lock now key r).0.slots ≡ r.slots
    unfolding try_acquire_lock
    try_acquire_lock-Keeps now key r = ground arith

    acquire_lock-Balanced :
        (key : Option String) (w : World)
        → let r = acquire_lock env c providers body key w in Balanced w r.0 r.1
    unfolding acquire_lock
    acquire_lock-Balanced none w = provider_for-Balanced w
    acquire_lock-Balanced (some key) w =
        let r = try_acquire_lock w.now key w.redis in
        locked-Balanced r.0 r.1 w (try_acquire_lock-Keeps w.now key w.redis)

    replay-Balanced :
        (key : Option String) (kept : Option String) (w : World)
        → let r = replay env c providers body key kept w in Balanced w r.0 r.1
    unfolding replay
    replay-Balanced key (some s) w = refl
    replay-Balanced key none w = acquire_lock-Balanced key w

    -- However a request ends that is not a live stream or a crash, the tenant's count of slots,
    -- read at the request's time, is what it was before. A live stream has raised it by one, and a
    -- crash, an exception that is no HTTPException, has left it or raised it by one.
    pub chat_completions-Balanced :
        (w : World) → let r = chat_completions env c providers body w in Balanced w r.0 r.1
    unfolding chat_completions
    chat_completions-Balanced w = replay-Balanced (given c.idempotency_key) _ w
