-- ===== src/Registry/Calls.antt =====
-- Where the calls of a model go, and with which credentials.
use aegis_gateway.Prelude.{
  ℕ, String, Bool, true, false, Option, none, some, List, [], ◌∷◌, ◌++◌, if◌then◌else◌, ◌≡◌, refl,
  sym, ap, ◌∙◌, Bool-cases, inl, inr,
}
use mathlib.Core.List.{reverse, reverse-reverse, reverse-append, append_assoc}
use aegis_gateway.CodePoints.{codes, is_empty}
use aegis_gateway.Breaker.{Breaker}
use aegis_gateway.Registry.{model_prefix_routes, resolve, is_routed, resolve_lem}
use aegis_gateway.Registry.Adapters.{
  Settings, Adapter, strip_slashes, rstrip_slashes, adapter, or_none, openai_base_url, Sent, sent,
  build_provider_registry,
}

rstrip_slashes-v1 : (s : List ℕ) → rstrip_slashes (s ++ codes "/v1") ≡ s ++ codes "/v1"
unfolding rstrip_slashes
rstrip_slashes-v1 s =
    let reversed : reverse (s ++ codes "/v1") ≡ b'1' ∷ b'v' ∷ b'/' ∷ reverse s =
      reverse-append s (codes "/v1") in
    ap (λ r. reverse (strip_slashes r)) reversed
    ∙ ap reverse (sym reversed)
    ∙ reverse-reverse (s ++ codes "/v1")

abbrev pub call_of : Bool → Option Adapter → Option Sent
call_of stream none = none
call_of stream (some a) = some (sent a stream)

-- What a call is to send, by whether its model is one of OpenAI's.
abbrev pub expected : Settings → Bool → Bool → Sent
expected s stream true = record {
  url = codes "https://api.openai.com/v1/chat/completions";
  headers =
      ("Content-Type", codes "application/json")
      ∷ (if is_empty s.openai_api_key
          then []
          else ("Authorization", codes "Bearer " ++ s.openai_api_key) ∷ []);
  timeout = s.provider_timeout_seconds;
  stream = stream;
}
expected s stream false = record {
  url = rstrip_slashes s.ollama_base_url ++ codes "/v1/chat/completions";
  headers = ("Content-Type", codes "application/json") ∷ [];
  timeout = s.provider_timeout_seconds;
  stream = stream;
}

openai_call :
    (key : List ℕ) (timeout max_attempts : ℕ) (b : Breaker) (stream : Bool)
    → sent (adapter "openai" openai_base_url (or_none key) timeout max_attempts b) stream ≡ record {
      url = codes "https://api.openai.com/v1/chat/completions";
      headers =
          ("Content-Type", codes "application/json")
          ∷ (if is_empty key then [] else ("Authorization", codes "Bearer " ++ key) ∷ []);
      timeout = timeout;
      stream = stream;
    }
unfolding sent adapter rstrip_slashes
openai_call [] timeout max_attempts b stream = refl
openai_call (c ∷ key) timeout max_attempts b stream = refl

ollama_call :
    (base : List ℕ) (timeout max_attempts : ℕ) (b : Breaker) (stream : Bool)
    → sent (adapter "ollama" (base ++ codes "/v1") none timeout max_attempts b) stream ≡ record {
      url = base ++ codes "/v1/chat/completions";
      headers = ("Content-Type", codes "application/json") ∷ [];
      timeout = timeout;
      stream = stream;
    }
unfolding sent adapter
ollama_call base timeout max_attempts b stream =
    let url : rstrip_slashes (base ++ codes "/v1") ++ codes "/chat/completions"
        ≡ base ++ codes "/v1/chat/completions" =
      ap (λ u. u ++ codes "/chat/completions") (rstrip_slashes-v1 base)
      ∙ append_assoc base (codes "/v1") (codes "/chat/completions") in
    simp url (refl)

-- With the registry that start-up builds, every model is resolved. The call of a model with one of OpenAI's
-- prefixes goes to OpenAI's fixed address, with the configured key as a bearer token, if it is not
-- empty; the call of every other model goes to the configured Ollama address, without trailing slashes, and
-- carries no credentials. Whether it streams, and the timeout, are as asked and as configured.
pub resolve-calls :
    (s : Settings) (model : String) (stream : Bool)
    → call_of stream (resolve (build_provider_registry s) model)
      ≡ some (expected s stream (is_routed model_prefix_routes model))
unfolding build_provider_registry
resolve-calls s model stream =
    rw (resolve_lem (build_provider_registry s) model)
      (elim (Bool-cases (is_routed model_prefix_routes model)) [
        | inl routed ↦ simp routed (ap some (openai_call s.openai_api_key _ _ _ stream))
        | inr other ↦
            simp other (ap some (ollama_call (rstrip_slashes s.ollama_base_url) _ _ _ stream))
      ])
