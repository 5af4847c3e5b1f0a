-- ===== src/Proxy/Streams.antt =====
-- What a streaming answer leaves in the tenant's cache, and when it gives back its slot.
use aegis_gateway.Prelude.{
  ℕ, ◌≤◌, ◌<◌, ◌+◌, ◌*◌, ltb, leb, ◌≡◌, refl, String, true, false, ◌&&◌, not, Option, none, some,
  length, ◌≟◌, if◌then◌else◌, arith, ap, ◌∙◌, Bool-cases, inl, inr, zero, Bool,
}
use aegis_gateway.Chat.{ChatCompletionRequest, count_text_tokens}
use aegis_gateway.Database.{usage_storable}
use aegis_gateway.Environment.{Env}
use aegis_gateway.Redis.{Redis, Entry, get, put, release_lock}
use aegis_gateway.Redis.Laws.{get-put_self}
use aegis_gateway.Proxy.Types.{
  StreamEnd, World, complete, failed, broken, Provider, live, Caller, release_slot, unlock, count,
  record_usage,
}
use aegis_gateway.Proxy.Handler.{store_given, store_cached_completion}
use aegis_gateway.Proxy.Stream.{
  Sent, take, collected, sent, sent_to_end, cacheable, counted_error, settled_usage, usage_raises,
  settled_by, settled_cache, settle_stream, run_job,
}

-- The client leaves before it takes a frame.
abbrev pub is_unstarted : Option ℕ → Bool
is_unstarted (some zero) = true
is_unstarted _ = false

module _ (env : Env) (c : Caller) (p : Provider) (body : ChatCompletionRequest) (n : ℕ) where
  -- A step of the `finally` before the slot is given back raises: the tokenizer, or the INSERT of the
  -- usage of a stream that has not failed.
  abbrev pub raises_at : Sent → Option ℕ → Bool
  raises_at s none = true
  raises_at s (some k) = s.succeeded && not (usage_storable body.model c.correlation_id)

  abbrev pub raises : Sent → Bool
  raises s = raises_at s (count_text_tokens env.encode_length s.text body.model)

  counted_error-Keeps :
      (s : Sent) (w : World)
      → ((counted_error env c p s w).redis ≡ w.redis) × ((counted_error env c p s w).now ≡ w.now)
  unfolding counted_error count
  counted_error-Keeps s w = elim (Bool-cases s.succeeded) [
    | inl ok ↦ simp ok (refl, refl)
    | inr bad ↦ simp bad (refl, refl)
  ]

  settled_usage-Keeps :
      (k : ℕ) (s : Sent) (w : World)
      → ((settled_usage env c p body n k s w).redis ≡ w.redis)
        × ((settled_usage env c p body n k s w).now ≡ w.now)
  unfolding settled_usage record_usage
  settled_usage-Keeps k s w = elim (Bool-cases s.succeeded) [
    | inl ok ↦ simp ok (refl, refl)
    | inr bad ↦ simp bad (refl, refl)
  ]

  settled_cache-cache :
      (k : ℕ) (key : String) (s : Sent) (w : World)
      → (settled_cache env c body n k (some key) s w).redis.cache ≡ (
          if s.succeeded && not (s.text ≟ "")
          then put w.now key
              (env.dump_json (cacheable env w.now body n k s.text))
              c.cache_ttl_seconds
              w.redis.cache
          else w.redis.cache)
  unfolding settled_cache store_given store_cached_completion
  settled_cache-cache k key s w = ground arith

  unlock-cache : (w : World) → (unlock c w).redis.cache ≡ w.redis.cache
  unfolding unlock release_lock
  unlock-cache w = ground arith

  -- The response that holds the given text, as it is stored.
  abbrev pub stored_text : ℕ → ℕ → String → String
  stored_text k now text = env.dump_json (cacheable env now body n k text)

  -- The cache after a stream whose text counts so many tokens, or makes the tokenizer raise.
  abbrev stored_at : String → Sent → World → Option ℕ → String → Option Entry
  stored_at key s w none = w.redis.cache
  stored_at key s w (some k) =
      if (s.succeeded && not (s.text ≟ "")) && not (usage_raises env c body s)
      then put w.now key (stored_text k w.now s.text) c.cache_ttl_seconds w.redis.cache
      else w.redis.cache

  stored_at-failed :
      (key : String) (s : Sent) (w : World) (o : Option ℕ)
      → s.succeeded ≡ false
      → stored_at key s w o ≡ w.redis.cache
  stored_at-failed key s w none h = refl
  stored_at-failed key s w (some k) h = simp h (refl)

  settled_by-cache :
      (key : String) (s : Sent) (o : Option ℕ) (w : World)
      → (settled_by env c p body n (some key) s o w).redis.cache ≡ stored_at key s w o
  unfolding settled_by release_slot
  settled_by-cache key s none w = refl
  settled_by-cache key s (some k) w =
      let u = settled_usage env c p body n k s w in
      let v = settled_cache env c body n k (some key) s u in
      let used = settled_usage-Keeps k s w in
      elim (Bool-cases (usage_raises env c body s)) [
        | inl bad ↦ simp bad (ap (λ (r : Redis). r.cache) used.0 ∙ ground arith)
        | inr ok ↦ simp ok (
            unlock-cache (release_slot v)
            ∙ settled_cache-cache k key s u
            ∙ simp used.0 (simp used.1 (ground arith)))
      ]

  settle_stream-cache :
      (key : String) (s : Sent) (w : World)
      → (settle_stream env c p body n (some key) s w).redis.cache
        ≡ stored_at key s w (count_text_tokens env.encode_length s.text body.model)
  unfolding settle_stream
  settle_stream-cache key s w =
      let kept = counted_error-Keeps s w in
      settled_by-cache key s (count_text_tokens env.encode_length s.text body.model)
        (counted_error env c p s w)
      ∙ same_stored (count_text_tokens env.encode_length s.text body.model)
    where
      same_stored :
          (o : Option ℕ) → stored_at key s (counted_error env c p s w) o ≡ stored_at key s w o
      same_stored none = ap (λ (r : Redis). r.cache) (counted_error-Keeps s w).0
      same_stored (some k) = let kept = counted_error-Keeps s w in simp kept.0 (simp kept.1 (refl))

  -- The entry that is found after a stream of a text that is not empty has ended well for the gateway:
  -- the text as a completion, unless the tokenizer or the INSERT of the usage raises.
  abbrev pub entry_at : String → World → String → Option ℕ → Option String
  entry_at key w text none = get w.now key w.redis.cache
  entry_at key w text (some k) =
      if usage_storable body.model c.correlation_id
      then some (stored_text k w.now text)
      else get w.now key w.redis.cache

  abbrev pub entry_of : String → World → String → Option String
  entry_of key w text = entry_at key w text (count_text_tokens env.encode_length text body.model)

  get-stored_at :
      (key : String) (s : Sent) (w : World) (o : Option ℕ)
      → 0 < c.cache_ttl_seconds
      → s.succeeded ≡ true
      → (s.text ≟ "") ≡ false
      → get w.now key (stored_at key s w o) ≡ entry_at key w s.text o
  unfolding usage_raises
  get-stored_at key s w none lives ok nonempty = refl
  get-stored_at key s w (some k) lives ok nonempty =
      let ttl = c.cache_ttl_seconds in
      let early : ltb w.now (w.now + ttl * 1_000_000) ≡ true = ground arith in
      elim (Bool-cases (usage_storable body.model c.correlation_id)) [
        | inl fits ↦
            simp (ok, nonempty, fits)
              (get-put_self w.now w.now key _ ttl w.redis.cache ∙ simp early (refl))
        | inr long ↦ simp (ok, nonempty, long) (refl)
      ]

  settle_stream-stores :
      (key : String) (s : Sent) (w : World) (text : String)
      → 0 < c.cache_ttl_seconds
      → s.succeeded ≡ true
      → s.text ≡ text
      → (text ≟ "") ≡ false
      → get w.now key (settle_stream env c p body n (some key) s w).redis.cache
        ≡ entry_of key w text
  settle_stream-stores key s w text lives ok is_text nonempty =
      ap (get w.now key) (settle_stream-cache key s w)
      ∙ get-stored_at key s w (count_text_tokens env.encode_length s.text body.model) lives ok
          (ap (λ (u : String). u ≟ "") is_text ∙ nonempty)
      ∙ ap (entry_of key w) is_text

  module _ (key : String) (w : World) where
    -- The tenant's cache after a live stream of which the client takes so many frames.
    abbrev pub cache_after : Option ℕ → String → Option Entry
    cache_after taken = (run_job env c taken (live p body n (some key)) w).0.redis.cache

    failed_not_cached :
        (message : String)
        → (p.stream_chat_completion body).end ≡ failed message
        → cache_after none ≡ w.redis.cache
    unfolding run_job sent sent_to_end
    failed_not_cached message fails =
        settle_stream-cache key (sent none (p.stream_chat_completion body)) w
        ∙ stored_at-failed key (sent none (p.stream_chat_completion body)) w _ (simp fails (refl))

    module _ (lives : 0 < c.cache_ttl_seconds) where
      -- The entry that is found after a stream to a client that stays, by how the stream ends.
      abbrev pub entry_after : StreamEnd → Option String
      entry_after complete = entry_of key w (collected (p.stream_chat_completion body).chunks)
      entry_after broken = entry_of key w (collected (p.stream_chat_completion body).chunks)
      entry_after (failed message) = get w.now key w.redis.cache

      entry_by_end :
          (end : StreamEnd)
          → (p.stream_chat_completion body).end ≡ end
          → (collected (p.stream_chat_completion body).chunks ≟ "") ≡ false
          → get w.now key (cache_after none) ≡ entry_after end
      unfolding run_job sent sent_to_end
      entry_by_end complete ends nonempty =
          settle_stream-stores key (sent none (p.stream_chat_completion body)) w _ lives
            (simp ends (refl)) (simp ends (refl)) nonempty
      entry_by_end broken breaks nonempty =
          settle_stream-stores key (sent none (p.stream_chat_completion body)) w _ lives
            (simp breaks (refl)) (simp breaks (refl)) nonempty
      entry_by_end (failed message) fails nonempty =
          ap (get w.now key) (failed_not_cached message fails)

      -- For a stream of a text that is not empty, to a client that stays, with a positive lifetime of the
      -- cache's entries: a stream that ends, or that breaks with an exception that is no
      -- `ProviderError`, leaves the text of its chunks in the cache as a completion, unless the
      -- tokenizer or the INSERT of the usage raises; one that fails with a `ProviderError`, and one
      -- for which one of the two raises, leaves the entry that was there.
      pub ended_cached :
          (collected (p.stream_chat_completion body).chunks ≟ "") ≡ false
          → get w.now key (cache_after none) ≡ entry_after (p.stream_chat_completion body).end
      ended_cached = entry_by_end (p.stream_chat_completion body).end refl

      -- If the client leaves after some of the chunks of a stream, and their text is not empty,
      -- then their text is in the cache as a completion, with a positive lifetime of its entries,
      -- however the stream would have ended; unless the tokenizer raises on that text or the INSERT
      -- of the usage does, which leaves the entry that was there.
      pub left_cached :
          (taken : ℕ)
          → taken ≤ length (p.stream_chat_completion body).chunks
          → (collected (take taken (p.stream_chat_completion body).chunks) ≟ "") ≡ false
          → get w.now key (cache_after (some taken))
            ≡ entry_of key w (collected (take taken (p.stream_chat_completion body).chunks))
      unfolding run_job sent
      left_cached taken within nonempty =
          let s = p.stream_chat_completion body in
          let in_time : leb taken (length s.chunks) ≡ true = ground arith in
          settle_stream-stores key (sent (some taken) s) w _ lives (simp in_time (refl))
            (simp in_time (refl)) nonempty
