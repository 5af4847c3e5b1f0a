-- ===== src/Security/Embeddings.antt =====
-- src/aegis_gateway/services/embeddings.py (`embed_texts`) and the embedding layer of detectors/prompt_injection.py:
-- what the detector asks of OpenAI, and what it makes of the answer. A vector is any type; the cosine of
-- two is an argument, in thousandths, where a negative one is 0, and none where it raises. The answers of
-- the HTTP client are arguments too.
use aegis_gateway.Prelude.{
  ℕ, max, String, Bool, true, ◌&&◌, Option, none, some, List, [], ◌∷◌, map, leb, ◌≟◌, if◌then◌else◌,
}
use aegis_gateway.Security.{Similarity, best, unavailable, raises}

-- An `httpx.HTTPError` of the call, or a status and the payload's `data`: each item's `index` and `embedding`,
-- none for a payload of another shape.
pub data Posted (E : Type 0) : Type 0 where
  failed : Posted E
  answered : ℕ → Option (List (ℕ × E)) → Posted E

-- `EmbeddingUnavailableError` and `HTTPError` are caught where `embed_texts` is called; other exceptions are not.
pub data Embedded (E : Type 0) : Type 0 where
  vectors : List E → Embedded E
  caught uncaught : Embedded E

pub record Detector (E : Type 0) : Type 0 where
  pub corpus_embeddings : Option (List E)
  pub embeddings_disabled : Bool

module _ {E : Type 0} where
  -- `sorted(…, key=lambda item: item["index"])`, which is stable.
  unfoldable pub insert : ℕ × E → List (ℕ × E) → List (ℕ × E)
  insert item [] = item ∷ []
  insert item (other ∷ items) =
      let rest = insert item items in
      if leb item.0 other.0 then item ∷ other ∷ items else other ∷ rest

  unfoldable pub sorted : List (ℕ × E) → List (ℕ × E)
  unfolding insert
  sorted [] = []
  sorted (item ∷ items) = insert item (sorted items)

  abbrev pub embedding : ℕ × E → E
  embedding item = item.1

  -- `raise_for_status` raises unless the status is 2xx.
  unfoldable pub embed_texts : String → Posted E → Embedded E
  unfolding sorted
  embed_texts api_key posted = if api_key ≟ "" then caught else of_answer posted
    where
      of_answer : Posted E → Embedded E
      of_answer failed = caught
      of_answer (answered code none) = if leb 200 code && leb code 299 then uncaught else caught
      of_answer (answered code (some items)) =
          if leb 200 code && leb code 299 then vectors (map embedding (sorted items)) else caught

  unfoldable pub new : String → Detector E
  new api_key = record { corpus_embeddings = none; embeddings_disabled = api_key ≟ "" }

  -- None is an exception that ends the start-up.
  unfoldable pub warmed : Embedded E → Detector E → Option (Detector E)
  warmed (vectors vs) d = some (record d { corpus_embeddings = some vs })
  warmed caught d = some (record d { embeddings_disabled = true })
  warmed uncaught d = none

  unfoldable pub warm_up : String → Posted E → Detector E → Option (Detector E)
  warm_up api_key posted d =
      if d.embeddings_disabled then some d else warmed (embed_texts api_key posted) d

  module _ (cosine_similarity : E → E → Option ℕ) where
    -- `max(…)` over the corpus.
    unfoldable pub best_of : E → List E → Similarity
    best_of v [] = best 0
    best_of v (c ∷ corpus) = larger (cosine_similarity v c) (best_of v corpus)
      where
        larger : Option ℕ → Similarity → Similarity
        larger none later = raises
        larger (some n) (best m) = best (max n m)
        larger (some n) later = later

    -- `[text_embedding] = …`, which wants one vector.
    unfoldable pub compared : Embedded E → List E → Similarity
    compared (vectors (v ∷ [])) corpus = best_of v corpus
    compared (vectors _) corpus = raises
    compared caught corpus = unavailable
    compared uncaught corpus = raises

    -- The part of `detect` behind the patterns; `post` is what the client makes of a text.
    unfoldable pub similarity : String → (String → Posted E) → Detector E → String → Similarity
    similarity api_key post d text = elim d.corpus_embeddings [
      | none ↦ unavailable
      | some [] ↦ unavailable
      | some (c ∷ corpus) ↦
          if d.embeddings_disabled
          then unavailable
          else compared (embed_texts api_key (post text)) (c ∷ corpus)
    ]
