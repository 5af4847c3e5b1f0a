-- ===== src/Security/Corpus.antt =====
-- The order of the embeddings, and what is left of the detector without them.
use aegis_gateway.Prelude.{
  ◌⊎◌, ℕ, ◌+◌, ◌<◌, String, true, false, Option, none, some, List, [], ◌∷◌, ◌++◌, ◌≡◌, refl, ◌∙◌,
  ap, map, ◌≢◌, ◌≤◌, inl, inr, Bool-cases, le→leb, lt→leb, eq_iff, All, leb, ◌≟◌, arith,
}
use aegis_gateway.Security.{unavailable}
use aegis_gateway.Security.Embeddings.{
  Posted, answered, vectors, caught, insert, sorted, embedding, embed_texts, Detector, new, warmed,
  warm_up, similarity,
}

module _ {E : Type 0} where
  -- The items of a list of vectors, with their places from `n` on.
  abbrev pub enumerate : ℕ → List E → List (ℕ × E)
  enumerate n [] = []
  enumerate n (v ∷ vs) = (n, v) ∷ enumerate (n + 1) vs

  -- The second list is the first in some order.
  pub data Shuffled : List (ℕ × E) → List (ℕ × E) → Type 0 where
    none_left : Shuffled [] []
    put :
        (item : ℕ × E) (items before after : List (ℕ × E))
        → Shuffled items (before ++ after)
        → Shuffled (item ∷ items) (before ++ item ∷ after)

  abbrev Above : ℕ → List (ℕ × E) → Type 0
  Above n items = All (λ item. n < item.0) items

  enumerate-Above : (m n : ℕ) (vs : List E) → m < n → Above m (enumerate n vs)
  enumerate-Above m n [] h = tt
  enumerate-Above m n (v ∷ vs) h = (h, enumerate-Above m (n + 1) vs (omega arith))

  Above-put :
      (n : ℕ) (item : ℕ × E) (before after : List (ℕ × E))
      → n < item.0
      → Above n (before ++ after)
      → Above n (before ++ item ∷ after)
  Above-put n item [] after h g = (h, g)
  Above-put n item (b ∷ before) after h g = (g.0, Above-put n item before after h g.1)

  Above-Shuffled :
      (n : ℕ) (items data_ : List (ℕ × E)) → Shuffled items data_ → Above n items → Above n data_
  Above-Shuffled n _ _ none_left h = tt
  Above-Shuffled n _ _ (put item items before after s) h =
      Above-put n item before after h.0 (Above-Shuffled n items (before ++ after) s h.1)

  Above-insert :
      (n : ℕ) (item : ℕ × E) (items : List (ℕ × E))
      → n < item.0
      → Above n items
      → Above n (insert item items)
  unfolding insert
  Above-insert n item [] h g = (h, tt)
  Above-insert n item (b ∷ items) h g = elim (Bool-cases (leb item.0 b.0)) [
    | inl le ↦ simp le (h, g)
    | inr gt ↦ simp gt (g.0, Above-insert n item items h g.1)
  ]

  Above-sorted : (n : ℕ) (items : List (ℕ × E)) → Above n items → Above n (sorted items)
  unfolding sorted
  Above-sorted n [] h = tt
  Above-sorted n (b ∷ items) h = Above-insert n b (sorted items) h.0 (Above-sorted n items h.1)

  insert-least :
      (item : ℕ × E) (items : List (ℕ × E)) → Above item.0 items → insert item items ≡ item ∷ items
  unfolding insert
  insert-least item [] h = refl
  insert-least item (b ∷ items) h = simp (le→leb item.0 b.0 (omega (arith, h.0)))

  -- The least item comes first, wherever it stands.
  sorted-put :
      (item : ℕ × E) (before after : List (ℕ × E))
      → Above item.0 (before ++ after)
      → sorted (before ++ item ∷ after) ≡ item ∷ sorted (before ++ after)
  unfolding sorted
  sorted-put item [] after h = insert-least item (sorted after) (Above-sorted item.0 after h)
  sorted-put item (b ∷ before) after h =
      rw (sorted-put item before after h.1) (simp (lt→leb item.0 b.0 h.0))

  abbrev IsAscending : List (ℕ × E) → Type 0
  IsAscending [] = Unit
  IsAscending (item ∷ items) = Above item.0 items × IsAscending items

  enumerate-IsAscending : (n : ℕ) (vs : List E) → IsAscending (enumerate n vs)
  enumerate-IsAscending n [] = tt
  enumerate-IsAscending n (v ∷ vs) =
      (enumerate-Above n (n + 1) vs (omega arith), enumerate-IsAscending (n + 1) vs)

  sorted-Shuffled :
      (items data_ : List (ℕ × E)) → IsAscending items → Shuffled items data_ → sorted data_ ≡ items
  unfolding sorted
  sorted-Shuffled _ _ h none_left = refl
  sorted-Shuffled _ _ h (put item items before after s) =
      sorted-put item before after (Above-Shuffled item.0 items (before ++ after) s h.0)
      ∙ ap (λ r. item ∷ r) (sorted-Shuffled items (before ++ after) h.1 s)

  map-enumerate : (n : ℕ) (vs : List E) → map embedding (enumerate n vs) ≡ vs
  map-enumerate n [] = refl
  map-enumerate n (v ∷ vs) = ap (λ r. v ∷ r) (map-enumerate (n + 1) vs)

  -- With a key, and an answer of status 2xx whose items are those of the texts' vectors in any order, each with the place of
  -- its text, `embed_texts` gives the vectors in the order of the texts.
  pub embed_texts-Shuffled :
      (api_key : String) (code : ℕ) (vs : List E) (items : List (ℕ × E))
      → api_key ≢ ""
      → 200 ≤ code
      → code ≤ 299
      → Shuffled (enumerate 0 vs) items
      → embed_texts api_key (answered code (some items)) ≡ vectors vs
  unfolding embed_texts
  embed_texts-Shuffled api_key code vs items h low high s =
      let given : (api_key ≟ "") ≡ false = ground (arith, eq_iff api_key "") in
      let order = sorted-Shuffled (enumerate 0 vs) items (enumerate-IsAscending 0 vs) s in
      simp (given, le→leb 200 code low, le→leb code 299 high, order, map-enumerate)

  abbrev off : Detector E
  off = record { corpus_embeddings = none; embeddings_disabled = true }

  -- Without a key, or after a warm-up whose failure is caught, no text has a similarity, whatever OpenAI answers
  -- later; the start-up goes on.
  pub warm_up-unavailable :
      (cosine_similarity : E → E → Option ℕ) (api_key : String) (posted : Posted E)
      → (api_key ≡ "") ⊎ (embed_texts api_key posted ≡ caught)
      → (d : Detector E) × (warm_up api_key posted (new api_key) ≡ some d)
        × ((post : String → Posted E) (text : String)
            → similarity cosine_similarity api_key post d text ≡ unavailable)
  unfolding warm_up new warmed similarity
  warm_up-unavailable cosine_similarity api_key posted (inl empty) =
      let given = (eq_iff api_key "").1 empty in simp given (off, refl, λ post text. refl)
  warm_up-unavailable cosine_similarity api_key posted (inr e) = elim (Bool-cases (api_key ≟ "")) [
    | inl empty ↦ simp empty (off, refl, λ post text. refl)
    | inr given ↦ simp (given, e) (off, refl, λ post text. refl)
  ]
