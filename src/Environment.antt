-- ===== src/Environment.antt =====
-- What the request handlers use and do not implement: the tokenizer, Presidio, the regular expressions
-- and the embeddings of the detector, the JSON of responses, SHA-256 over canonical JSON, fresh ids, the calendar,
-- `round(…, 6)` of a float, and the wording of error messages.
use aegis_gateway.Prelude.{ℕ, String, Bool, Option, List}
use aegis_gateway.Chat.{ChatMessage, ChatCompletionResponse}
use aegis_gateway.Security.{Similarity}

-- `body.model_dump(exclude={"stream"}, exclude_none=True)`
pub record Payload : Type 0 where
  pub model : String
  pub messages : List ChatMessage
  pub extra : String

pub record Env : Type 0 where
  pub encode_length : String → String → Option ℕ
  pub analyze : String → Option (List String)
  pub anonymize : String → Option String
  pub searches : ℕ → String → Bool
  pub similarity : String → Similarity
  pub dump_json : ChatCompletionResponse → String
  pub load_json : String → Option ChatCompletionResponse
  pub digest : Payload → String
  pub month_of : ℕ → ℕ
  pub round_6 : ℕ → ℕ
  pub fresh_id : ℕ → String
  pub choice_json : String → String
  pub first_500 : String → String
  pub describe : String → String
