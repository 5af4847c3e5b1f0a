-- ===== src/Security.antt =====
-- src/aegis_gateway/detectors/pii.py and detectors/prompt_injection.py. Presidio, the regular
-- expressions and the embeddings service are arguments; scores are in thousandths.
pub mod Corpus
pub mod Embeddings
pub mod Laws
pub mod Tests
pub mod Pipeline
pub mod Verdicts
use Prim.Native.Nat.{Ordering}
use Prim.Native.String
use aegis_gateway.Prelude.{
  ℕ, zero, suc, ◌+◌, max, String, Bool, true, false, Option, none, some, List, [], ◌∷◌, ◌++◌, ltb,
  leb, ◌≟◌, if◌then◌else◌,
}
use aegis_gateway.Chat.{Content, text, parts, absent, ChatMessage}

pub record PiiRedactionResult : Type 0 where
  pub redacted_text : String
  pub entity_types : List String

-- A set of strings as its sorted list: `sorted({…})`, `update`.
unfoldable pub insert_type : String → List String → List String
insert_type t [] = t ∷ []
insert_type t (u ∷ types) =
    let rest = u ∷ insert_type t types in
    elim (String.compare t u) [
      | Ordering.lt ↦ t ∷ u ∷ types
      | Ordering.eq ↦ u ∷ types
      | Ordering.gt ↦ rest
    ]

unfoldable pub insert_types : List String → List String → List String
unfolding insert_type
insert_types [] types = types
insert_types (t ∷ ts) types = insert_types ts (insert_type t types)

-- `analyze` gives the entity types of the findings, `anonymize` the text without them; either may raise,
-- which nothing catches.
module _ (analyze : String → Option (List String)) (anonymize : String → Option String) where
  anonymized_with : List String → Option String → Option PiiRedactionResult
  anonymized_with findings none = none
  anonymized_with findings (some s) =
      some (record { redacted_text = s; entity_types = insert_types findings [] })

  redact_findings : String → Option (List String) → Option PiiRedactionResult
  unfolding anonymized_with
  redact_findings s none = none
  redact_findings s (some []) = some (record { redacted_text = s; entity_types = [] })
  redact_findings s (some (f ∷ findings)) = anonymized_with (f ∷ findings) (anonymize s)

  unfoldable pub redact : String → Option PiiRedactionResult
  unfolding redact_findings
  redact s =
      if s ≟ ""
      then some (record { redacted_text = s; entity_types = [] })
      else redact_findings s (analyze s)

  -- One round of the loop of `redact_messages`: the message that is appended, and the set.
  redacted_message :
      ChatMessage → Option PiiRedactionResult → List String → Option (ChatMessage × List String)
  redacted_message m none types = none
  redacted_message m (some result) types = elim result.entity_types [
    | [] ↦ some (m, types)
    | t ∷ ts ↦ some (record m { content = text result.redacted_text }, insert_types (t ∷ ts) types)
  ]

  redact_message : ChatMessage → Content → List String → Option (ChatMessage × List String)
  unfolding redacted_message
  redact_message m (text s) types = redacted_message m (redact s) types
  redact_message m (parts s) types = some (m, types)
  redact_message m absent types = some (m, types)

  appended :
      ChatMessage
      → Option (List ChatMessage × List String)
      → Option (List ChatMessage × List String)
  appended m none = none
  appended m (some (messages, types)) = some (m ∷ messages, types)

  continued :
      Option (ChatMessage × List String)
      → (List String → Option (List ChatMessage × List String))
      → Option (List ChatMessage × List String)
  unfolding appended
  continued none later = none
  continued (some (m, types)) later = appended m (later types)

  redact_from : List String → List ChatMessage → Option (List ChatMessage × List String)
  unfolding redact_message continued
  redact_from types [] = some ([], types)
  redact_from types (m ∷ messages) =
      continued (redact_message m m.content types) (λ types'. redact_from types' messages)

  unfoldable pub redact_messages : List ChatMessage → Option (List ChatMessage × List String)
  unfolding redact_from
  redact_messages messages = redact_from [] messages

pub record InjectionVerdict : Type 0 where
  pub score : ℕ
  pub matched_heuristic : Bool
  pub matched_embedding : Bool

-- The weights of `_HEURISTIC_PATTERNS`, in order.
abbrev pub heuristic_weights : List ℕ
heuristic_weights = 950 ∷ 900 ∷ 950 ∷ 900 ∷ 850 ∷ 850 ∷ 850 ∷ 800 ∷ 600 ∷ 850 ∷ []

-- What the embeddings call makes of a text: the best similarity with the corpus, where a negative one is
-- 0; nothing, where it is disabled or raises an error that is caught; or another exception.
pub data Similarity : Type 0 where
  best : ℕ → Similarity
  unavailable raises : Similarity

-- `searches i` is whether the pattern with index `i` is found.
module _ (searches : ℕ → String → Bool) (similarity : String → Similarity) where
  heuristic_from : ℕ → List ℕ → String → ℕ → ℕ
  heuristic_from i [] s score = score
  heuristic_from i (weight ∷ weights) s score =
      heuristic_from (i + 1) weights s (if searches i s then max score weight else score)

  verdict : ℕ → ℕ → InjectionVerdict
  verdict heuristic_score embedding_score = record {
    score = max heuristic_score embedding_score;
    matched_heuristic = ltb 0 heuristic_score;
    matched_embedding = leb 800 embedding_score;
  }

  scored : ℕ → Similarity → Option InjectionVerdict
  unfolding verdict
  scored heuristic_score (best n) = some (verdict heuristic_score n)
  scored heuristic_score unavailable = some (verdict heuristic_score 0)
  scored heuristic_score raises = none

  -- `none` is the exception that is not caught.
  unfoldable pub detect : String → Option InjectionVerdict
  unfolding heuristic_from scored
  detect s =
      if s ≟ ""
      then some (record { score = 0; matched_heuristic = false; matched_embedding = false })
      else scored (heuristic_from 0 heuristic_weights s 0) (similarity s)
