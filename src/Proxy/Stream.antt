-- ===== src/Proxy/Stream.antt =====
-- `_stream_cached_completion` and `_stream_chat_completion`: what a streaming answer sends, and what its
-- `finally` does. A client may leave after any number of frames, which closes the generator at
-- that `yield`; one that never asks for a frame leaves the generator unstarted.
use Prim.Native.String
use aegis_gateway.Prelude.{
  ℕ, zero, suc, ◌+◌, ◌/◌, String, Bool, true, false, ◌&&◌, not, Option, none, some, List, [], ◌∷◌,
  ◌++◌, ◌≟◌, leb, length, map, if◌then◌else◌,
}
use aegis_gateway.Chat.{
  ChatCompletionRequest, ChatCompletionResponse, completion_text, count_text_tokens,
}
use aegis_gateway.Database.{usage_storable}
use aegis_gateway.Environment.{Env}
use aegis_gateway.Security.Pipeline.{chat_completions}
use aegis_gateway.Proxy.Types.{
  World, Chunk, StreamEnd, complete, failed, broken, Stream, Provider, Job, cached, live, Caller,
  release_slot, unlock, count, record_usage, cached_raises, record_cached,
}
use aegis_gateway.Proxy.Handler.{store_given}

pub data Frame : Type 0 where
  chunk : String → Frame
  whole : String → Frame
  upstream_error : String → Frame
  done : Frame

-- The frames that the generator has yielded when its `finally` begins, the text that it has
-- collected, and its variable `succeeded`.
pub record Sent : Type 0 where
  pub frames : List Frame
  pub text : String
  pub succeeded : Bool

abbrev pub take {ℓ} : {A : Type ℓ} → ℕ → List A → List A
take zero xs = []
take (suc n) [] = []
take (suc n) (x ∷ xs) = x ∷ take n xs

unfoldable pub join : List String → String
join [] = ""
join (s ∷ rest) = String.◌++◌ s (join rest)

-- `"".join(completion_parts)` after the given chunks.
unfoldable pub collected : List Chunk → String
unfolding join
collected [] = ""
collected (c ∷ chunks) = String.◌++◌ (join c.contents) (collected chunks)

abbrev pub chunk_frames : List Chunk → List Frame
chunk_frames chunks = map (λ (c : Chunk). chunk c.json) chunks

-- The `try` with its `except ProviderError`, when the client stays.
unfoldable pub sent_to_end : List Chunk → StreamEnd → Sent
sent_to_end chunks complete = record {
  frames = chunk_frames chunks ++ done ∷ [];
  text = collected chunks;
  succeeded = true;
}
sent_to_end chunks (failed message) = record {
  frames = chunk_frames chunks ++ upstream_error message ∷ [];
  text = collected chunks;
  succeeded = false;
}
sent_to_end chunks broken = record {
  frames = chunk_frames chunks;
  text = collected chunks;
  succeeded = true;
}

-- `taken` is the number of frames after which the client leaves.
unfoldable pub sent : Option ℕ → Stream → Sent
sent none s = sent_to_end s.chunks s.end
sent (some taken) s =
    if leb taken (length s.chunks)
    then record {
      frames = chunk_frames (take taken s.chunks);
      text = collected (take taken s.chunks);
      succeeded = true;
    }
    else sent_to_end s.chunks s.end

-- The response that a successful stream leaves in the cache.
unfoldable pub cacheable : Env → ℕ → ChatCompletionRequest → ℕ → ℕ → String → ChatCompletionResponse
cacheable env now body prompt_tokens completion_tokens content = record {
  id = env.fresh_id now;
  created = now / 1_000_000;
  model = body.model;
  choices = record { content = some content; raw = env.choice_json content } ∷ [];
  usage = some (record {
    prompt_tokens = prompt_tokens;
    completion_tokens = completion_tokens;
    total_tokens = prompt_tokens + completion_tokens;
  });
  extra = "";
}

abbrev taken_of : Option ℕ → List Frame → List Frame
taken_of none frames = frames
taken_of (some n) frames = take n frames

module _ (env : Env) (c : Caller) where
  -- The `finally` of `_stream_chat_completion`, step by step: the count of an error, the tokens, the
  -- usage, the cache, the slot and the lock. Where a step raises, the later ones are not run.
  unfoldable pub counted_error : Provider → Sent → World → World
  counted_error p s w = if s.succeeded then w else count (chat_completions p.name "error") w

  unfoldable pub settled_usage : Provider → ChatCompletionRequest → ℕ → ℕ → Sent → World → World
  settled_usage p body prompt_tokens completion_tokens s w =
      if s.succeeded
      then record_usage env c p body.model prompt_tokens completion_tokens false w
      else w

  -- The usage is recorded, and does not fit.
  unfoldable pub usage_raises : ChatCompletionRequest → Sent → Bool
  usage_raises body s = s.succeeded && not (usage_storable body.model c.correlation_id)

  unfoldable pub settled_cache :
      ChatCompletionRequest → ℕ → ℕ → Option String → Sent → World → World
  settled_cache body prompt_tokens completion_tokens cache_key s w =
      if s.succeeded && not (s.text ≟ "")
      then store_given env c cache_key
          (cacheable env w.now body prompt_tokens completion_tokens s.text) w
      else w

  unfoldable pub settled_by :
      Provider → ChatCompletionRequest → ℕ → Option String → Sent → Option ℕ → World → World
  settled_by p body prompt_tokens cache_key s none w = w
  settled_by p body prompt_tokens cache_key s (some completion_tokens) w =
      let used = settled_usage p body prompt_tokens completion_tokens s w in
      if usage_raises body s
      then used
      else unlock c
          (release_slot (settled_cache body prompt_tokens completion_tokens cache_key s used))

  unfoldable pub settle_stream :
      Provider → ChatCompletionRequest → ℕ → Option String → Sent → World → World
  settle_stream p body prompt_tokens cache_key s w =
      settled_by p body prompt_tokens cache_key s
        (count_text_tokens env.encode_length s.text body.model) (counted_error p s w)

  -- After the last frame of a cached answer, and after the client has left, its usage is recorded.
  unfoldable pub settle_cached : ChatCompletionResponse → Provider → World → World
  settle_cached response p w =
      let used = record_cached env c p response.model response w in
      if cached_raises env c response.model response.usage then used else unlock c used

  -- Sending a streaming answer to a client that takes at least one frame.
  unfoldable pub run_job : Option ℕ → Job → World → World × List Frame
  run_job taken (cached response p) w = (
    settle_cached response p w,
    taken_of taken (whole (completion_text response.choices) ∷ done ∷ []),
  )
  run_job taken (live p body prompt_tokens cache_key) w =
      let s = sent taken (p.stream_chat_completion body) in
      (settle_stream p body prompt_tokens cache_key s w, s.frames)

  -- A generator that is never started runs nothing of its body, and nothing of its `finally`.
  unfoldable pub send : Option ℕ → Job → World → World × List Frame
  send none job w = run_job none job w
  send (some zero) job w = (w, [])
  send (some (suc n)) job w = run_job (some (suc n)) job w
