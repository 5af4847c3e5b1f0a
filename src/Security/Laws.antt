-- ===== src/Security/Laws.antt =====
-- What redaction and detection promise.
use aegis_gateway.Prelude.{
  ℕ, ◌+◌, ◌≡◌, ◌≢◌, refl, inl, inr, max, String, Bool, false, Option, none, some, List, [], ◌∷◌,
  ltb, leb, ◌≟◌, if◌then◌else◌, arith, eq_iff, Bool-cases, Option-cases, ap, ◌∙◌,
}
use aegis_gateway.Chat.{Content, text, parts, absent, ChatMessage}
use aegis_gateway.Security.{
  insert_type, insert_types, redact, redact_findings, redacted_message, redact_message,
  anonymized_with, appended, continued, PiiRedactionResult, redact_from, redact_messages,
  InjectionVerdict, heuristic_weights, Similarity, best, unavailable, raises, heuristic_from,
  scored, detect,
}

cons-ne-nil : (t : String) (types : List String) → t ∷ types ≢ []
cons-ne-nil t types = λ e. cc

insert_type-ne-nil : (t : String) (types : List String) → insert_type t types ≢ []
unfolding insert_type
insert_type-ne-nil t [] = cons-ne-nil t []
insert_type-ne-nil t (u ∷ types) = ground arith

insert_types-ne-nil : (ts types : List String) → types ≢ [] → insert_types ts types ≢ []
unfolding insert_types
insert_types-ne-nil [] types h = h
insert_types-ne-nil (t ∷ ts) types h =
    insert_types-ne-nil ts (insert_type t types) (insert_type-ne-nil t types)

abbrev pub messages_of : Option (List ChatMessage × List String) → Option (List ChatMessage)
messages_of none = none
messages_of (some (messages, types)) = some messages

module _ (analyze : String → Option (List String)) (anonymize : String → Option String) where
  -- What redaction should make of a text: if the analyzer finds something in it, the anonymized text;
  -- nothing if one of the two raises.
  abbrev pub cleaned : String → Option (List String) → Option String
  cleaned s none = none
  cleaned s (some []) = some s
  cleaned s (some (f ∷ findings)) = anonymize s

  abbrev pub clean : String → Option String
  clean s = if s ≟ "" then some s else cleaned s (analyze s)

  abbrev pub with_text : Option String → Option Content
  with_text none = none
  with_text (some s) = some (text s)

  abbrev pub clean_content : Content → Option Content
  clean_content (text s) = with_text (clean s)
  clean_content (parts s) = some (parts s)
  clean_content absent = some absent

  abbrev pub with_content : ChatMessage → Option Content → Option ChatMessage
  with_content m none = none
  with_content m (some content) = some (record m { content = content })

  abbrev pub clean_message : ChatMessage → Option ChatMessage
  clean_message m = with_content m (clean_content m.content)

  -- The list of the results, if each is there.
  abbrev pub both : Option ChatMessage → Option (List ChatMessage) → Option (List ChatMessage)
  both none later = none
  both (some m) none = none
  both (some m) (some later) = some (m ∷ later)

  unfoldable pub clean_all : List ChatMessage → Option (List ChatMessage)
  clean_all [] = some []
  clean_all (m ∷ messages) = both (clean_message m) (clean_all messages)

  abbrev text_of : Option PiiRedactionResult → Option String
  text_of none = none
  text_of (some r) = some r.redacted_text

  -- Where no type is reported the text is the one that was given.
  abbrev IsRedacted : String → Option PiiRedactionResult → Type 0
  IsRedacted s none = Unit
  IsRedacted s (some r) = (r.entity_types ≡ [] → r.redacted_text ≡ s)

  redact_findings-cleaned :
      (s : String) (o : Option (List String))
      → (text_of (redact_findings analyze anonymize s o) ≡ cleaned s o)
        × IsRedacted s (redact_findings analyze anonymize s o)
  unfolding redact_findings anonymized_with insert_types
  redact_findings-cleaned s none = (refl, tt)
  redact_findings-cleaned s (some []) = (refl, λ e. refl)
  redact_findings-cleaned s (some (f ∷ findings)) = elim (Option-cases (anonymize s)) [
    | inl raised ↦ simp raised (refl, tt)
    | inr (t, done) ↦
        simp done (refl, λ e. absurd (insert_types-ne-nil findings (f ∷ []) (cons-ne-nil f []) e))
  ]

  redact-clean :
      (s : String)
      → (text_of (redact analyze anonymize s) ≡ clean s) × IsRedacted s (redact analyze anonymize s)
  unfolding redact
  redact-clean s = elim (Bool-cases (s ≟ "")) [
    | inl none_ ↦ simp none_ (refl, λ e. refl)
    | inr some_ ↦ simp some_ (redact_findings-cleaned s (analyze s))
  ]

  abbrev message_of : Option (ChatMessage × List String) → Option ChatMessage
  message_of none = none
  message_of (some (m, types)) = some m

  redacted_message-clean :
      (m : ChatMessage) (s : String) (o : Option PiiRedactionResult) (types : List String)
      → m.content ≡ text s
      → IsRedacted s o
      → message_of (redacted_message analyze anonymize m o types)
        ≡ with_content m (with_text (text_of o))
  unfolding redacted_message
  redacted_message-clean m s none types e h = refl
  redacted_message-clean m s (some r) types e h = ground arith

  redact_message-clean :
      (m : ChatMessage) (c : Content) (types : List String)
      → m.content ≡ c
      → message_of (redact_message analyze anonymize m c types) ≡ with_content m (clean_content c)
  unfolding redact_message
  redact_message-clean m (text s) types e =
      let (same, kept) = redact-clean s in
      redacted_message-clean m s (redact analyze anonymize s) types e kept
      ∙ ap (λ (o : Option String). with_content m (with_text o)) same
  redact_message-clean m (parts s) types e = ground arith
  redact_message-clean m absent types e = ground arith

  appended-messages :
      (m : ChatMessage) (o : Option (List ChatMessage × List String))
      → messages_of (appended analyze anonymize m o) ≡ both (some m) (messages_of o)
  unfolding appended
  appended-messages m none = refl
  appended-messages m (some r) = refl

  continued-messages :
      (o : Option (ChatMessage × List String))
      (later : List String → Option (List ChatMessage × List String))
      (rest : Option (List ChatMessage))
      → ((types : List String) → messages_of (later types) ≡ rest)
      → messages_of (continued analyze anonymize o later) ≡ both (message_of o) rest
  unfolding continued
  continued-messages none later rest h = refl
  continued-messages (some (m, types)) later rest h =
      appended-messages m (later types) ∙ ap (both (some m)) (h types)

  redact_from-clean :
      (types : List String) (messages : List ChatMessage)
      → messages_of (redact_from analyze anonymize types messages) ≡ clean_all messages
  unfolding redact_from clean_all
  redact_from-clean types [] = refl
  redact_from-clean types (m ∷ messages) =
      continued-messages (redact_message analyze anonymize m m.content types) _ (clean_all messages)
        (λ later. redact_from-clean later messages)
      ∙ ap (λ (o : Option ChatMessage). both o (clean_all messages))
          (redact_message-clean m m.content types refl)

  -- Redaction changes the text contents of the messages, to the anonymized text where the analyzer
  -- found something, and nothing else: not their number, order, roles, names or other parts. It raises
  -- exactly if Presidio raises on one of the texts that are not empty.
  pub redact_messages-clean :
      (messages : List ChatMessage)
      → messages_of (redact_messages analyze anonymize messages) ≡ clean_all messages
  unfolding redact_messages
  redact_messages-clean messages = redact_from-clean [] messages

-- The largest weight of a pattern that is found, from the pattern with index `i` on.
abbrev pub best_weight : (ℕ → String → Bool) → ℕ → List ℕ → String → ℕ
best_weight searches i [] s = 0
best_weight searches i (weight ∷ weights) s =
    max (if searches i s then weight else 0) (best_weight searches (i + 1) weights s)

heuristic_from-best :
    (searches : ℕ → String → Bool) (similarity : String → Similarity) (i : ℕ) (weights : List ℕ)
    (s : String) (score : ℕ)
    → heuristic_from searches similarity i weights s score
      ≡ max score (best_weight searches i weights s)
unfolding heuristic_from
heuristic_from-best searches similarity i [] s score = omega arith
heuristic_from-best searches similarity i (weight ∷ weights) s score = ground (
  arith,
  heuristic_from-best searches similarity (i + 1) weights s (max score weight),
  heuristic_from-best searches similarity (i + 1) weights s score,
)

-- What `detect` makes of a heuristic score and a similarity.
abbrev pub judged : ℕ → Similarity → Option InjectionVerdict
judged h raises = none
judged h (best n) =
    some (record { score = max h n; matched_heuristic = ltb 0 h; matched_embedding = leb 800 n })
judged h unavailable =
    some (record { score = h; matched_heuristic = ltb 0 h; matched_embedding = false })

scored-judged :
    (searches : ℕ → String → Bool) (similarity : String → Similarity) (score : ℕ)
    (found : Similarity)
    → scored searches similarity score found ≡ judged score found
unfolding scored
scored-judged searches similarity score (best n) = refl
scored-judged searches similarity score unavailable = ground arith
scored-judged searches similarity score raises = refl

-- For a text that is not empty the heuristic score is the best weight among the patterns that are
-- found; the verdict's score is the larger of that and the embedding's similarity, which does not count
-- where it is unavailable; its flags say whether a pattern was found and whether the similarity
-- reaches 0.8. Detection fails exactly if the embeddings call raises what is not caught.
pub detect_lem :
    (searches : ℕ → String → Bool) (similarity : String → Similarity) (s : String)
    → s ≢ ""
    → detect searches similarity s
      ≡ judged (best_weight searches 0 heuristic_weights s) (similarity s)
unfolding detect
detect_lem searches similarity s h =
    let full : (s ≟ "") ≡ false = ground (arith, eq_iff s "") in
    let best_found : heuristic_from searches similarity 0 heuristic_weights s 0
        ≡ best_weight searches 0 heuristic_weights s =
      heuristic_from-best searches similarity 0 heuristic_weights s 0 ∙ omega arith in
    rw full (
      scored-judged searches similarity _ (similarity s)
      ∙ ap (λ n. judged n (similarity s)) best_found)
