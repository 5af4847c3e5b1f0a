-- ===== src/Upstream/Connect.antt =====
-- src/aegis_gateway/providers/openai_compatible.py: `_open_stream` and `stream_chat_completion`. The connect phase is
-- retried and guarded by the breaker; the lines behind it are not. What the HTTP client answers to
-- each attempt is an argument.
use mathlib.Core.List.{append-nil}
use aegis_gateway.Prelude.{
  ℕ, ◌<◌, String, Bool, Option, some, List, [], ◌∷◌, ◌++◌, ◌≡◌, ◌⊎◌, inl, inr, leb, map, All, arith,
  if◌then◌else◌,
}
use aegis_gateway.ProviderError.{ProviderError}
use aegis_gateway.Breaker.{Breaker, admitted, before_call, record_success}
use aegis_gateway.Retry.{Exn, status, Attempt, returned, raised}
use aegis_gateway.Upstream.{Call, value, error, escaped, assertion, Settled, run_with_breaker}
use aegis_gateway.Upstream.Laws.{settles}
use aegis_gateway.Upstream.Sse
use aegis_gateway.Upstream.Sse.{
  Ending, finished, malformed, broken, Chunks, IsPayload, frame, done_line, stream-frames,
}

-- The lines of an answer, and whether they end with it or with an exception of the client.
pub record Response : Type 0 where
  pub lines : List (List ℕ)
  pub intact : Bool

-- What `send(…, stream=True)` does; `body` is what `aread` does.
pub data Sent : Type 0 where
  failed : Exn → Sent
  answered : ℕ → (body : Attempt String) → Response → Sent

abbrev pub status_error : ℕ → Attempt String → Attempt Response
status_error code (returned text) = raised (status code text)
status_error code (raised e) = raised e

unfoldable pub open_stream : Sent → Attempt Response
open_stream (failed e) = raised e
open_stream (answered code body response) =
    if leb 400 code then status_error code body else returned response

-- The breaker, the chunks, and how the generator ends; its normal end has no value, and the texts of the
-- exceptions behind the connect phase are constants.
pub record Streamed (C : Type 0) : Type 0 where
  pub breaker : Breaker
  pub yielded : List C
  pub end : Call (Unit {0})

module _ {C : Type 0} (loads : List ℕ → Option C) where
  abbrev pub ended : Ending → Call (Unit {0})
  ended finished = value tt
  ended malformed = error (ProviderError.malformed "malformed SSE chunk")
  ended broken = escaped "the connection broke"

  unfoldable pub read : Breaker → Call Response → Streamed C
  read b (value response) =
      let chunks = Sse.stream_chat_completion loads response.intact response.lines in
      record { breaker = b; yielded = chunks.yielded; end = ended chunks.ending }
  read b (error e) = record { breaker = b; yielded = []; end = error e }
  read b (escaped message) = record { breaker = b; yielded = []; end = escaped message }
  read b assertion = record { breaker = b; yielded = []; end = assertion }

  module _ (messages : String × String) (now later : ℕ) (sent : ℕ → Sent)
      (max_attempts base_delay max_delay : ℕ) (b : Breaker) where
    abbrev pub connected : Settled Response
    connected =
        run_with_breaker messages now later (λ n. open_stream (sent n)) max_attempts base_delay
          max_delay b

    unfoldable pub stream_chat_completion : Streamed C
    stream_chat_completion = read connected.breaker connected.call

    success_of_value :
        (response : Response)
        → 0 < max_attempts
        → (before_call now b).1 ≡ admitted
        → connected.call ≡ value response
        → connected.breaker ≡ record_success (before_call now b).0
    success_of_value response pos adm call =
        elim (settles messages now later (λ n. open_stream (sent n)) max_attempts base_delay
          max_delay b pos adm) [
            | inl (m, e) ↦ ground (arith, e, call)
            | inr (inl (ok, rest)) ↦ ok
            | inr (inr (bad, (e, is_error))) ↦ ground (arith, is_error, call)
          ]

    -- What follows the framed chunks, and how the generator ends then: the marker, and whatever is behind it; or
    -- nothing, in an answer that is intact or breaks off.
    abbrev pub EndsBy : Response → List (List ℕ) → Call (Unit {0}) → (C → List ℕ) → Type 0
    EndsBy response tail end dumps =
        ((rest : List (List ℕ)) × (tail ≡ done_line loads dumps response.intact ∷ rest)
          × (end ≡ value tt))
        ⊎ ((tail ≡ [])
            × (end ≡ (if response.intact then value tt else escaped "the connection broke")))

    -- If the call is let through, with at least one attempt allowed, and the connect phase gets an answer whose lines
    -- frame chunks, with the marker or nothing behind them, then the generator yields exactly those
    -- chunks, in order. It ends normally, or by the client's exception if the answer breaks off behind the
    -- chunks; in each case the breaker has recorded a success. (`loads` undoes `dumps` on the chunks,
    -- and their texts are payloads.)
    pub stream_chat_completion_lem :
        (dumps : C → List ℕ) (cs : List C) (response : Response) (tail : List (List ℕ))
        (end : Call (Unit {0}))
        → All (λ c. IsPayload (dumps c) × (loads (dumps c) ≡ some c)) cs
        → 0 < max_attempts
        → (before_call now b).1 ≡ admitted
        → connected.call ≡ value response
        → response.lines ≡ map (frame loads dumps response.intact) cs ++ tail
        → EndsBy response tail end dumps
        → stream_chat_completion
          ≡ record { breaker = record_success (before_call now b).0; yielded = cs; end = end }
    unfolding stream_chat_completion read
    stream_chat_completion_lem dumps cs response tail end payloads pos adm call lines
          (inl (rest, marked, normal)) =
        simp (
          call,
          lines,
          marked,
          normal,
          (stream-frames loads dumps response.intact cs rest payloads).0,
          success_of_value response pos adm call,
        )
    stream_chat_completion_lem dumps cs response tail end payloads pos adm call lines
          (inr (nothing, how)) =
        let framed = (stream-frames loads dumps response.intact cs [] payloads).1 in
        simp (call, lines, nothing, append-nil, framed, success_of_value response pos adm call, how)
          (ground arith)
