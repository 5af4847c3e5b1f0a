-- ===== src/Proxy/Slots/Held.antt =====
-- What each part of the handler that runs while a request holds its slot does to that slot.
use aegis_gateway.Prelude.{
  ℕ, ◌≡◌, refl, ◌⊎◌, inl, inr, false, String, Option, none, some, arith, ◌∙◌, Bool-cases,
}
use aegis_gateway.Chat.{ChatCompletionRequest, ChatCompletionResponse, Usage}
use aegis_gateway.Database.{usage_storable}
use aegis_gateway.Upstream.{Call, value, error, escaped, assertion}
use aegis_gateway.Environment.{Env}
use aegis_gateway.RateLimit.Slots.{release_concurrency_slot}
use aegis_gateway.Redis.{get, release_lock, store_response}
use aegis_gateway.Security.Pipeline.{
  Verdict, passed, blocked, crashed as failed_detection, run_security_pipeline,
}
use aegis_gateway.Proxy.Types.{
  World, Provider, live, Reply, streaming, crashed, Caller, release_slot, unlock, keep_answer,
  count, record_usage, cached_raises, record_cached,
}
use aegis_gateway.Proxy.Handler.{
  compute_cache_key, store_cached_completion, refuse, usage_of, answer_with, answer, store_given,
  answered_by, on_miss, on_hit, loaded, looked_up, cache_lookup, judged, security_pipeline,
}

-- From a world in which the request holds a slot: each answer has released it once, but for a live stream,
-- which still holds it, and for a crash.
abbrev pub Frees : World → World → Reply → Type 0
Frees w w' (streaming (live p body prompt_tokens cache_key)) = w'.redis.slots ≡ w.redis.slots
Frees w w' crashed =
    (w'.redis.slots ≡ w.redis.slots)
    ⊎ (w'.redis.slots ≡ some (release_concurrency_slot w.now w.redis.slots))
Frees w w' _ = w'.redis.slots ≡ some (release_concurrency_slot w.now w.redis.slots)

abbrev pub Keeps : World → World → Type 0
Keeps w w' = (w'.redis.slots ≡ w.redis.slots) × (w'.now ≡ w.now)

module _ (env : Env) (c : Caller) where
  pub unlock-Keeps : (w : World) → Keeps w (unlock c w)
  unfolding unlock release_lock
  unlock-Keeps w = ground arith

  freed :
      (w : World)
      → (release_slot w).redis.slots ≡ some (release_concurrency_slot w.now w.redis.slots)
  unfolding release_slot
  freed w = refl

  pub keep_answer-Keeps : (s : String) (w : World) → Keeps w (keep_answer c s w)
  unfolding keep_answer release_lock store_response
  keep_answer-Keeps s w = ground arith

  pub record_cached-Keeps :
      (p : Provider) (model : String) (r : ChatCompletionResponse) (w : World)
      → Keeps w (record_cached env c p model r w)
  unfolding record_cached record_usage
  record_cached-Keeps p model r w = ground arith

  recorded-Keeps :
      (p : Provider) (body : ChatCompletionRequest) (key : Option String) (usage : Usage)
      (r : ChatCompletionResponse) (w : World)
      → Keeps w (
          record_usage env c p body.model usage.prompt_tokens usage.completion_tokens false
            (store_given env c key r w))
  unfolding store_given store_cached_completion record_usage
  recorded-Keeps p body none usage r w = (refl, refl)
  recorded-Keeps p body (some key) usage r w = (refl, refl)

  pub answer_with-Frees :
      (p : Provider) (body : ChatCompletionRequest) (key : Option String)
      (raw : ChatCompletionResponse) (o : Option Usage) (w : World)
      → let r = answer_with env c p body key raw o (release_slot w) in Frees w r.0 r.1
  unfolding answer_with
  answer_with-Frees p body key raw none w = inr (freed w)
  answer_with-Frees p body key raw (some usage) w =
      let response = record raw { usage = some usage } in
      let stored = recorded-Keeps p body key usage response (release_slot w) in
      elim (Bool-cases (usage_storable body.model c.correlation_id)) [
        | inl fits ↦
            simp fits ((keep_answer-Keeps (env.dump_json response) _).0 ∙ stored.0 ∙ freed w)
        | inr long ↦ simp long (inr (stored.0 ∙ freed w))
      ]

  pub answer-Frees :
      (p : Provider) (body : ChatCompletionRequest) (n : ℕ) (key : Option String)
      (raw : ChatCompletionResponse) (w : World)
      → let r = answer env c p body n key raw (release_slot w) in Frees w r.0 r.1
  unfolding answer
  answer-Frees p body n key raw w =
      answer_with-Frees p body key raw (usage_of env c body n raw raw.usage) w

  pub answered_by-Frees :
      (p : Provider) (body : ChatCompletionRequest) (n : ℕ) (key : Option String)
      (call : Call ChatCompletionResponse) (w : World)
      → Frees w (answered_by env c p body n key call w).0 (answered_by env c p body n key call w).1
  unfolding answered_by release_slot unlock release_lock count
  answered_by-Frees p body n key (value r) w = answer-Frees p body n key r w
  answered_by-Frees p body n key (error e) w = ground arith
  answered_by-Frees p body n key (escaped m) w = inr refl
  answered_by-Frees p body n key assertion w = inr refl

  pub on_miss-Frees :
      (p : Provider) (body : ChatCompletionRequest) (n : ℕ) (key : Option String) (w : World)
      → let r = on_miss env c p body n key w in Frees w r.0 r.1
  unfolding on_miss
  on_miss-Frees p body n key w = elim (Bool-cases body.stream) [
    | inl streams ↦ simp streams (refl)
    | inr plain ↦ simp plain (answered_by-Frees p body n key (p.chat_completion body) w)
  ]

  pub on_hit-Frees :
      (p : Provider) (body : ChatCompletionRequest) (response : ChatCompletionResponse) (w : World)
      → let r = on_hit env c p body response w in Frees w r.0 r.1
  unfolding on_hit release_slot
  on_hit-Frees p body response w = elim (Bool-cases body.stream) [
    | inl streams ↦ simp streams (refl)
    | inr plain ↦
        let used = record_cached env c p body.model response (release_slot w) in
        let kept = record_cached-Keeps p body.model response (release_slot w) in
        simp plain (elim (Bool-cases (cached_raises env c body.model response.usage)) [
          | inl raises ↦ simp raises (inr kept.0)
          | inr stored ↦ simp stored ((keep_answer-Keeps (env.dump_json response) used).0 ∙ kept.0)
        ])
  ]

  pub loaded-Frees :
      (p : Provider) (body : ChatCompletionRequest) (o : Option ChatCompletionResponse) (w : World)
      → let r = loaded env c p body o w in Frees w r.0 r.1
  unfolding loaded count
  loaded-Frees p body none w = inl refl
  loaded-Frees p body (some response) w = on_hit-Frees p body response _

  pub looked_up-Frees :
      (p : Provider) (body : ChatCompletionRequest) (n : ℕ) (key : String) (raw : Option String)
      (w : World)
      → let r = looked_up env c p body n key raw w in Frees w r.0 r.1
  unfolding looked_up count
  looked_up-Frees p body n key none w = on_miss-Frees p body n (some key) _
  looked_up-Frees p body n key (some raw) w = loaded-Frees p body (env.load_json raw) w

  pub cache_lookup-Frees :
      (p : Provider) (body : ChatCompletionRequest) (n : ℕ) (w : World)
      → let r = cache_lookup env c p body n w in Frees w r.0 r.1
  unfolding cache_lookup
  cache_lookup-Frees p body n w = elim (Bool-cases c.tenant.cache_enabled) [
    | inl on ↦ simp on (
        looked_up-Frees p body n (compute_cache_key env body)
          (get w.now (compute_cache_key env body) w.redis.cache) w)
    | inr off ↦ simp off (on_miss-Frees p body n none w)
  ]

  pub judged-Frees :
      (p : Provider) (n : ℕ) (v : Verdict) (w : World)
      → let r = judged env c p n v w in Frees w r.0 r.1
  unfolding judged refuse release_slot count
  judged-Frees p n (passed body) w = cache_lookup-Frees p body n w
  judged-Frees p n blocked w = (unlock-Keeps _).0
  judged-Frees p n failed_detection w = inl refl

  pub security_pipeline-Frees :
      (p : Provider) (body : ChatCompletionRequest) (n : ℕ) (w : World)
      → let r = security_pipeline env c p body n w in Frees w r.0 r.1
  unfolding security_pipeline
  security_pipeline-Frees p body n w =
      let r = run_security_pipeline env c.tenant c.correlation_id body w.trail in
      judged-Frees p n r.1 (record w { trail = r.0 })
