-- ===== src/Security/Verdicts.antt =====
-- When the security pipeline blocks a request, what it passes on, and what it writes.
use aegis_gateway.Prelude.{
  ◌≡◌, refl, inl, inr, String, Option, none, some, List, [], ◌∷◌, leb, arith, if◌then◌else◌,
  Bool-cases, ◌∙◌, ◌&&◌, not, ap, Bool, true, false,
}
use aegis_gateway.Context.{TenantContext}
use aegis_gateway.Chat.{ChatMessage, ChatCompletionRequest}
use aegis_gateway.Security.{InjectionVerdict, redact_messages, detect}
use aegis_gateway.Security.Laws.{clean_all, messages_of, redact_messages-clean}
use aegis_gateway.Database.{storable}
use aegis_gateway.Environment.{Env}
use aegis_gateway.Security.Pipeline.{
  Trail, Verdict, passed, blocked, crashed, blocks, user_texts, join_lines, body_with, redacted,
  redaction, judged, detection, detected, run_security_pipeline,
}

-- Redaction has found something.
abbrev pub reports : Option (List ChatMessage × List String) → Bool
reports none = false
reports (some (messages, [])) = false
reports (some (messages, kind ∷ kinds)) = true

module _ (env : Env) (tenant : TenantContext) (correlation_id : Option String)
    (body : ChatCompletionRequest) (t : Trail) where
  -- The messages as the tenant's setting asks: redacted, or as they came. None if Presidio raises, or if
  -- something is found and its event is refused.
  abbrev pub sent_messages : Option (List ChatMessage)
  sent_messages =
      if tenant.pii_redaction_enabled
      then if reports (redact_messages env.analyze env.anonymize body.messages)
          && not (storable correlation_id)
        then none
        else clean_all env.analyze env.anonymize body.messages
      else some body.messages

  abbrev pub judgement : List ChatMessage → Option InjectionVerdict
  judgement messages = detect env.searches env.similarity (join_lines (user_texts messages))

  -- What detection makes of the messages.
  abbrev pub decided : List ChatMessage → Verdict
  decided messages =
      if tenant.injection_detection_enabled
      then (elim (judgement messages) [
        | none ↦ crashed
        | some v ↦
            if leb tenant.injection_detection_threshold v.score
            then if storable correlation_id
              then if blocks tenant.injection_detection_mode
                then blocked
                else passed (body_with body messages)
              else crashed
            else passed (body_with body messages)
      ])
      else passed (body_with body messages)

  abbrev pub decided_on : Option (List ChatMessage) → Verdict
  decided_on none = crashed
  decided_on (some messages) = decided messages

  abbrev outcome : Trail × Verdict
  outcome = run_security_pipeline env tenant correlation_id body t

  redacted-messages :
      (r : Option (List ChatMessage × List String))
      → (redacted env tenant correlation_id r t).1
        ≡ (if reports r && not (storable correlation_id) then none else messages_of r)
  unfolding redacted
  redacted-messages none = refl
  redacted-messages (some (messages, [])) = refl
  redacted-messages (some (messages, kind ∷ kinds)) = elim (Bool-cases (storable correlation_id)) [
    | inl short ↦ simp short (refl)
    | inr long ↦ simp long (refl)
  ]

  redaction-messages : (redaction env tenant correlation_id body.messages t).1 ≡ sent_messages
  unfolding redaction
  redaction-messages =
      let r = redact_messages env.analyze env.anonymize body.messages in
      elim (Bool-cases tenant.pii_redaction_enabled) [
        | inl on ↦ simp on (
            redacted-messages r
            ∙ ap
                (λ (o : Option (List ChatMessage)).
                  if reports r && not (storable correlation_id) then none else o)
                (redact_messages-clean env.analyze env.anonymize body.messages))
        | inr off ↦ simp off
      ]

  detection-verdict :
      (messages : List ChatMessage) (t' : Trail)
      → (detection env tenant correlation_id (body_with body messages) t').1 ≡ decided messages
  unfolding detection judged
  detection-verdict messages t' = ground arith

  detected-verdict :
      (r : Trail × Option (List ChatMessage))
      → (detected env tenant correlation_id body r).1 ≡ decided_on r.1
  unfolding detected
  detected-verdict (t', none) = refl
  detected-verdict (t', some messages) = detection-verdict messages t'

  -- The pipeline blocks a request exactly if detection is on, the verdict on the user's texts as they
  -- would be sent reaches the tenant's threshold, and its mode is "block". Otherwise it passes on
  -- the redacted request, also where a verdict is only logged. It fails exactly if Presidio raises in
  -- redaction, or detection fails, or there is an event to write and the client's correlation id has
  -- more than 64 characters.
  pub run_security_pipeline_lem : outcome.1 ≡ decided_on sent_messages
  unfolding run_security_pipeline
  run_security_pipeline_lem =
      detected-verdict (redaction env tenant correlation_id body.messages t)
      ∙ ap decided_on redaction-messages
