-- ===== src/Chat.antt =====
-- src/aegis_gateway/schemas/chat.py and services/token_counter.py: requests, responses and their tokens.
-- What the models keep as extra fields, and the raw JSON of parts and choices, is text here.
use Prim.Native.String
use aegis_gateway.Prelude.{ℕ, ◌+◌, String, Bool, Option, none, some, List, [], ◌∷◌}

pub data Content : Type 0 where
  text : String → Content
  parts : String → Content
  absent : Content

-- `name` is the extra field, if it is a string.
pub record ChatMessage : Type 0 where
  pub role : String
  pub content : Content
  pub name : Option String
  pub extra : String

pub record ChatCompletionRequest : Type 0 where
  pub model : String
  pub messages : List ChatMessage
  pub stream : Bool
  pub extra : String

pub record Usage : Type 0 where
  pub prompt_tokens : ℕ
  pub completion_tokens : ℕ
  pub total_tokens : ℕ

-- `content` is that of the choice's message, if both have the type that `_completion_text` asks for.
pub record Choice : Type 0 where
  pub content : Option String
  pub raw : String

pub record ChatCompletionResponse : Type 0 where
  pub id : String
  pub created : ℕ
  pub model : String
  pub choices : List Choice
  pub usage : Option Usage
  pub extra : String

-- `_completion_text`: the contents of the choices, joined.
unfoldable pub completion_text : List Choice → String
completion_text [] = ""
completion_text (choice ∷ choices) = elim choice.content [
  | none ↦ completion_text choices
  | some content ↦ String.◌++◌ content (completion_text choices)
]

-- A sum that raises if one of its terms does.
abbrev pub plus : Option ℕ → Option ℕ → Option ℕ
plus none n = none
plus (some m) none = none
plus (some m) (some n) = some (m + n)

-- The tokenizer, `len(_encoding_for(model).encode(text))`, is the argument `encode_length`: none where it
-- raises, which it does on a text with one of its special tokens.
module _ (encode_length : String → String → Option ℕ) where
  content_tokens : String → Content → Option ℕ
  content_tokens model (text s) = encode_length model s
  content_tokens model (parts s) = some 0
  content_tokens model absent = some 0

  name_tokens : String → Option String → Option ℕ
  name_tokens model none = some 0
  name_tokens model (some name) = plus (encode_length model name) (some 1)

  -- One round of the loop adds this to `num_tokens`.
  message_tokens : String → ChatMessage → Option ℕ
  unfolding content_tokens name_tokens
  message_tokens model m =
      plus (plus (some 3) (encode_length model m.role))
        (plus (content_tokens model m.content) (name_tokens model m.name))

  count_from : Option ℕ → String → List ChatMessage → Option ℕ
  count_from num_tokens model [] = plus num_tokens (some 3)
  count_from num_tokens model (m ∷ messages) =
      count_from (plus num_tokens (message_tokens model m)) model messages

  unfoldable pub count_prompt_tokens : List ChatMessage → String → Option ℕ
  unfolding count_from message_tokens
  count_prompt_tokens messages model = count_from (some 0) model messages

  unfoldable pub count_text_tokens : String → String → Option ℕ
  count_text_tokens s model = encode_length model s
