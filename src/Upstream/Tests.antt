-- ===== src/Upstream/Tests.antt =====
-- Guarded calls, outages and SSE answers on concrete inputs.
use aegis_gateway.Prelude.{
  ℕ, suc, ◌≤◌, ◌⊎◌, ◌≡◌, refl, ◌≢◌, inr, false, String, true, Option, some, List, [], ◌∷◌, arith,
  map, All,
}
use aegis_gateway.Breaker.{
  Breaker, closed, half_open, new, before_call, admitted, refused_probing, record_success,
}
use aegis_gateway.Breaker.Invariant.{IsValid}
use aegis_gateway.Breaker.Laws.{admissions}
use aegis_gateway.Retry.{status, Attempt, returned, raised, Retried, call_with_retry}
use aegis_gateway.Retry.Laws.{EndsRight, call_with_retry_lem}
use aegis_gateway.Upstream.{is_retryable, escaped, run_with_breaker}
use aegis_gateway.Upstream.Outage.{
  System, here, next, refuse, after_escape, Reach-IsValid, permanent_outage,
}
use aegis_gateway.CodePoints.{lstrip, same}
use aegis_gateway.Upstream.Sse.{IsPayload, frame}
use aegis_gateway.Upstream.Connect.{
  Response, Sent, answered, open_stream, stream_chat_completion, stream_chat_completion_lem,
}

-- Two answers of 503, then a value.
abbrev flaky : ℕ → Attempt String
flaky (suc (suc (suc n))) = returned "answer"
flaky _ = raised (status 503 "busy")

call_with_retry_lem_example :
    (r : Retried String) × (call_with_retry flaky is_retryable 3 1000 8000 ≡ some r)
    × EndsRight flaky is_retryable 3 1000 8000 1 r
call_with_retry_lem_example = call_with_retry_lem flaky is_retryable 3 1000 8000 (ground arith)

abbrev messages : String × String
messages = ("open", "half open")

abbrev fresh : Breaker
fresh = new 5 30_000_000

-- A half-open circuit whose probe is running.
abbrev probing : Breaker
probing = record {
  failure_threshold = 2;
  recovery_timeout = 30;
  state = half_open;
  failure_count = 2;
  opened_at = some 20;
  half_open_probe_in_flight = true;
}

probing-IsValid : IsValid probing
probing-IsValid = ground arith

abbrev probe : System
probe = record { breaker = probing; running = 1 }

probe_refuses : (before_call 70 probing).1 ≢ admitted
unfolding before_call
probe_refuses = ground arith

Reach-IsValid_example :
    let b = (before_call 70 probing).0 in
    IsValid b × ((b.state ≡ closed) ⊎ (admissions (30 ∷ 50 ∷ 90 ∷ []) b ≤ 1))
Reach-IsValid_example =
    Reach-IsValid {s = probe} (30 ∷ 50 ∷ 90 ∷ []) probing-IsValid
      (next here (refuse 70 probe_refuses))

permanent_outage_example :
    ((after_escape 60 "ReadError" probe).breaker ≡ probing)
    × ((later : ℕ)
        → before_call later (after_escape 60 "ReadError" probe).breaker
          ≡ ((after_escape 60 "ReadError" probe).breaker, refused_probing))
permanent_outage_example =
    permanent_outage 60 "ReadError" probe (after_escape 60 "ReadError" probe) probing-IsValid refl
      here

-- Chunks are their texts.
abbrev texts : List (List ℕ)
texts = (b'1' ∷ []) ∷ (b'2' ∷ b'3' ∷ []) ∷ []

abbrev parse : List ℕ → Option (List ℕ)
parse line = some line

abbrev print : List ℕ → List ℕ
print c = c

texts-IsPayload : All (λ c. IsPayload c × (parse c ≡ some c)) texts
unfolding lstrip same
texts-IsPayload = ((one, refl), ((two, refl), tt))
  where
    one : IsPayload (b'1' ∷ [])
    one = record { trimmed_left = refl; trimmed_right = refl; not_empty = refl; not_marker = refl }

    two : IsPayload (b'2' ∷ b'3' ∷ [])
    two = record { trimmed_left = refl; trimmed_right = refl; not_empty = refl; not_marker = refl }

-- The first attempt is answered with 503, the second with two chunks, and then the connection breaks.
abbrev cut_short : Response
cut_short = record { lines = map (frame parse print false) texts; intact = false }

abbrev busy_then_cut : ℕ → Sent
busy_then_cut (suc (suc n)) = answered 200 (returned "") cut_short
busy_then_cut _ = answered 503 (returned "busy") cut_short

stream_chat_completion_lem_example :
    stream_chat_completion parse messages 10 20 busy_then_cut 3 1000 8000 fresh ≡ record {
      breaker = record_success (before_call 10 fresh).0;
      yielded = texts;
      end = escaped "the connection broke";
    }
unfolding before_call new run_with_breaker call_with_retry open_stream
stream_chat_completion_lem_example =
    stream_chat_completion_lem parse messages 10 20 busy_then_cut 3 1000 8000 fresh print texts
      cut_short [] (escaped "the connection broke") texts-IsPayload (ground arith) refl refl refl
      (inr (refl, refl))
