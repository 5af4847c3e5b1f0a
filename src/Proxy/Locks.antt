-- ===== src/Proxy/Locks.antt =====
-- The idempotency lock and the kept answer after a request.
use aegis_gateway.Prelude.{
  ℕ, ◌+◌, ◌<◌, ◌≡◌, refl, ◌⊎◌, inl, inr, String, Bool, true, false, Option, none, some, arith, ap,
  Bool-cases,
}
use aegis_gateway.Chat.{ChatCompletionRequest, ChatCompletionResponse, Usage}
use aegis_gateway.Database.{usage_storable}
use aegis_gateway.Upstream.{Call, value, error, escaped, assertion}
use aegis_gateway.Registry.{resolve}
use aegis_gateway.Environment.{Env}
use aegis_gateway.RateLimit.Enforce.{Exceeded, Limits}
use aegis_gateway.RateLimit.Slots.{Counter}
use aegis_gateway.RateLimit.Slots.Laws.{slots}
use aegis_gateway.Redis.{
  Redis, get, put, get_cached_response, try_acquire_lock, release_lock, store_response,
}
use aegis_gateway.Security.Pipeline.{
  Verdict, chat_completions as completions, passed, blocked, crashed as failed_detection,
  run_security_pipeline,
}
use aegis_gateway.Proxy.Types.{
  World, miss, replayed, Provider, Reply, json, http, streaming, crashed, given, Caller,
  release_slot, unlock, keep_answer, count, cached_raises, record_cached,
}
use aegis_gateway.Proxy.Handler.{
  compute_cache_key, refuse, usage_of, answer_with, answer, answered_by, on_miss, on_hit, loaded,
  looked_up, cache_lookup, judged, security_pipeline, too_many, slotted, limited, rate_limited,
  rate_limit, routed, provider_for, locked, acquire_lock, replay, kept_answer, chat_completions,
}
use aegis_gateway.Redis.Laws.{eq_self, get-release_lock, get-del_self}

-- What an answer leaves under the request's idempotency key: a fresh completion is kept for a day
-- and the lock is free, and so it is after every refusal but a 409. `given c.idempotency_key` is `some k`.
abbrev pub Settles : Caller → String → World → Reply → Type 0
Settles c k w' (json s replayed) = Unit
Settles c k w' (json s h) =
    (w'.redis.responses k ≡ some (record { value = s; expires_at = w'.now + 86_400_000_000 }))
    × (get w'.now k w'.redis.locks ≡ none)
Settles c k w' (http x) = (x.status_code ≡ 409) ⊎ (get w'.now k w'.redis.locks ≡ none)
Settles c k w' (streaming job) = Unit
Settles c k w' crashed = Unit

get-kept :
    (now : ℕ) (k s : String) (expires_at : ℕ) (r : Redis)
    → r.responses k ≡ some (record { value = s; expires_at = expires_at })
    → now < expires_at
    → get_cached_response now k r ≡ some s
unfolding get_cached_response get
get-kept now k s expires_at r kept early = simp kept (ground arith)

module _ (env : Env) (c : Caller) (k : String) (key_given : given c.idempotency_key ≡ some k) where
  unlock-frees : (w : World) → get (unlock c w).now k (unlock c w).redis.locks ≡ none
  unfolding unlock
  unlock-frees w = simp key_given (get-release_lock w.now k w.redis)

  keep_answer-keeps :
      (s : String) (w : World)
      → let v = keep_answer c s w in
        (v.redis.responses k ≡ some (record { value = s; expires_at = v.now + 86_400_000_000 }))
        × (get v.now k v.redis.locks ≡ none)
  unfolding keep_answer store_response put release_lock
  keep_answer-keeps s w =
      simp key_given (simp (eq_self k) (refl), get-del_self w.now k w.redis.locks)

  answer_with-Settles :
      (p : Provider) (body : ChatCompletionRequest) (key : Option String)
      (raw : ChatCompletionResponse) (o : Option Usage) (w : World)
      → let r = answer_with env c p body key raw o w in Settles c k r.0 r.1
  unfolding answer_with
  answer_with-Settles p body key raw none w = tt
  answer_with-Settles p body key raw (some usage) w =
      elim (Bool-cases (usage_storable body.model c.correlation_id)) [
        | inl fits ↦ simp fits (keep_answer-keeps _ _)
        | inr long ↦ simp long (tt)
      ]

  answer-Settles :
      (p : Provider) (body : ChatCompletionRequest) (n : ℕ) (key : Option String)
      (raw : ChatCompletionResponse) (w : World)
      → let r = answer env c p body n key raw w in Settles c k r.0 r.1
  unfolding answer
  answer-Settles p body n key raw w =
      answer_with-Settles p body key raw (usage_of env c body n raw raw.usage) w

  answered_by-Settles :
      (p : Provider) (body : ChatCompletionRequest) (n : ℕ) (key : Option String)
      (call : Call ChatCompletionResponse) (w : World)
      → let r = answered_by env c p body n key call w in Settles c k r.0 r.1
  unfolding answered_by release_slot
  answered_by-Settles p body n key (value r) w = answer-Settles p body n key r (release_slot w)
  answered_by-Settles p body n key (error e) w =
      inr (unlock-frees (count (completions p.name "error") w))
  answered_by-Settles p body n key (escaped m) w = tt
  answered_by-Settles p body n key assertion w = tt

  on_miss-Settles :
      (p : Provider) (body : ChatCompletionRequest) (n : ℕ) (key : Option String) (w : World)
      → let r = on_miss env c p body n key w in Settles c k r.0 r.1
  unfolding on_miss
  on_miss-Settles p body n key w = elim (Bool-cases body.stream) [
    | inl streams ↦ simp streams (tt)
    | inr plain ↦ simp plain (answered_by-Settles p body n key (p.chat_completion body) w)
  ]

  on_hit-Settles :
      (p : Provider) (body : ChatCompletionRequest) (response : ChatCompletionResponse) (w : World)
      → let r = on_hit env c p body response w in Settles c k r.0 r.1
  unfolding on_hit
  on_hit-Settles p body response w = elim (Bool-cases body.stream) [
    | inl streams ↦ simp streams (tt)
    | inr plain ↦ simp plain (elim (Bool-cases (cached_raises env c body.model response.usage)) [
      | inl raises ↦ simp raises (tt)
      | inr stored ↦ simp stored (
          keep_answer-keeps (env.dump_json response)
            (record_cached env c p body.model response (release_slot w)))
    ])
  ]

  loaded-Settles :
      (p : Provider) (body : ChatCompletionRequest) (o : Option ChatCompletionResponse) (w : World)
      → let r = loaded env c p body o w in Settles c k r.0 r.1
  unfolding loaded
  loaded-Settles p body none w = tt
  loaded-Settles p body (some response) w = on_hit-Settles p body response _

  looked_up-Settles :
      (p : Provider) (body : ChatCompletionRequest) (n : ℕ) (key : String) (raw : Option String)
      (w : World)
      → let r = looked_up env c p body n key raw w in Settles c k r.0 r.1
  unfolding looked_up
  looked_up-Settles p body n key none w = on_miss-Settles p body n (some key) _
  looked_up-Settles p body n key (some raw) w = loaded-Settles p body (env.load_json raw) w

  cache_lookup-Settles :
      (p : Provider) (body : ChatCompletionRequest) (n : ℕ) (w : World)
      → let r = cache_lookup env c p body n w in Settles c k r.0 r.1
  unfolding cache_lookup
  cache_lookup-Settles p body n w =
      let key = compute_cache_key env body in
      elim (Bool-cases c.tenant.cache_enabled) [
        | inl on ↦ simp on (looked_up-Settles p body n key (get w.now key w.redis.cache) w)
        | inr off ↦ simp off (on_miss-Settles p body n none w)
      ]

  refuse-Settles :
      (status_code : ℕ) (error_type reason : String) (retry_after : Option ℕ) (w : World)
      → let r = refuse env c status_code error_type reason retry_after w in Settles c k r.0 r.1
  unfolding refuse
  refuse-Settles status_code error_type reason retry_after w = inr (unlock-frees w)

  too_many-Settles :
      (p : Provider) (reason : String) (retry_after : Option ℕ) (w : World)
      → let r = too_many env c p reason retry_after w in Settles c k r.0 r.1
  unfolding too_many
  too_many-Settles p reason retry_after w = refuse-Settles 429 _ reason retry_after _

  judged-Settles :
      (p : Provider) (n : ℕ) (v : Verdict) (w : World)
      → let r = judged env c p n v w in Settles c k r.0 r.1
  unfolding judged
  judged-Settles p n (passed body) w = cache_lookup-Settles p body n w
  judged-Settles p n blocked w = refuse-Settles 403 _ _ none _
  judged-Settles p n failed_detection w = tt

  slotted-Settles :
      (p : Provider) (body : ChatCompletionRequest) (n : ℕ) (r : Counter × Bool) (w : World)
      → let s = slotted env c p body n r w in Settles c k s.0 s.1
  unfolding slotted security_pipeline
  slotted-Settles p body n (slots, true) w =
      let v : World = record w { redis = record w.redis { slots = some slots } } in
      judged-Settles p n (run_security_pipeline env c.tenant c.correlation_id body v.trail).1 _
  slotted-Settles p body n (slots, false) w = too_many-Settles p _ _ _

  limited-Settles :
      (p : Provider) (body : ChatCompletionRequest) (n : ℕ) (r : Limits × Option Exceeded)
      (w : World)
      → let s = limited env c p body n r w in Settles c k s.0 s.1
  unfolding limited
  limited-Settles p body n (limits, some e) w = too_many-Settles p _ _ _
  limited-Settles p body n (limits, none) w = slotted-Settles p body n _ _

  rate_limited-Settles :
      (p : Provider) (body : ChatCompletionRequest) (o : Option ℕ) (w : World)
      → let r = rate_limited env c p body o w in Settles c k r.0 r.1
  unfolding rate_limited
  rate_limited-Settles p body none w = tt
  rate_limited-Settles p body (some n) w = limited-Settles p body _ _ w

  routed-Settles :
      (body : ChatCompletionRequest) (o : Option Provider) (w : World)
      → let r = routed env c body o w in Settles c k r.0 r.1
  unfolding routed rate_limit
  routed-Settles body none w = refuse-Settles 400 _ _ none w
  routed-Settles body (some p) w = rate_limited-Settles p body _ w

  module _ (providers : String → Option Provider) (body : ChatCompletionRequest) where
    locked-Settles :
        (r : Redis × Bool) (w : World)
        → let s = locked env c providers body r w in Settles c k s.0 s.1
    unfolding locked provider_for
    locked-Settles (redis, false) w = inl refl
    locked-Settles (redis, true) w = routed-Settles body (resolve providers body.model) _

    replay-Settles :
        (kept : Option String) (w : World)
        → let r = replay env c providers body (some k) kept w in Settles c k r.0 r.1
    unfolding replay acquire_lock
    replay-Settles (some s) w = tt
    replay-Settles none w = locked-Settles (try_acquire_lock w.now k w.redis) w

    -- After a request with an idempotency key: a fresh completion is kept under the key for a day
    -- and the key's lock is free; after an HTTP error the lock is free, but for a 409. Nothing is
    -- said of a replay, of a streaming answer and of a crash.
    pub chat_completions-Settles :
        (w : World) → let r = chat_completions env c providers body w in Settles c k r.0 r.1
    unfolding chat_completions
    chat_completions-Settles w = simp key_given (replay-Settles _ w)

    -- A kept response, read before it expires, is the answer, and nothing changes.
    pub replayed_lem :
        (w : World) (s : String) (expires_at : ℕ)
        → body.stream ≡ false
        → w.redis.responses k ≡ some (record { value = s; expires_at = expires_at })
        → w.now < expires_at
        → chat_completions env c providers body w ≡ (w, json s replayed)
    unfolding chat_completions kept_answer replay
    replayed_lem w s expires_at plain kept early = simp key_given (
        simp plain (
          ap (λ (o : Option String). replay env c providers body (some k) o w)
            (get-kept w.now k s expires_at w.redis kept early)))

    -- If a request that is not streamed is answered with a fresh completion, the same request with
    -- the same idempotency key, at any time within a day, gets the same text as a replay, and that
    -- changes nothing.
    pub idempotent :
        (w : World) (s : String) (later : ℕ)
        → body.stream ≡ false
        → (chat_completions env c providers body w).1 ≡ json s miss
        → later < (chat_completions env c providers body w).0.now + 86_400_000_000
        → let v : World = record (chat_completions env c providers body w).0 { now = later } in
          chat_completions env c providers body v ≡ (v, json s replayed)
    idempotent w s later plain fresh early =
        let r = chat_completions env c providers body w in
        let kept : Settles c k r.0 (json s miss) = rw fresh at (chat_completions-Settles w) in
        replayed_lem (record r.0 { now = later }) s _ plain kept.0 early
