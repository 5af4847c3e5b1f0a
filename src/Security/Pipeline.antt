-- ===== src/Security/Pipeline.antt =====
-- `_run_security_pipeline` of src/aegis_gateway/api/proxy.py: redaction, then detection.
use Prim.Native.String
use aegis_gateway.Prelude.{
  ℕ, String, Bool, true, false, Option, none, some, List, [], ◌∷◌, ◌++◌, leb, ◌≟◌, if◌then◌else◌,
}
use aegis_gateway.Context.{Mode, block, log, TenantContext}
use aegis_gateway.Chat.{Content, text, parts, absent, ChatMessage, ChatCompletionRequest}
use aegis_gateway.Security.{InjectionVerdict, redact_messages, detect}
use aegis_gateway.Database.{Db, Detail, entity_types, injection, storable, write_audit_event}
use aegis_gateway.Environment.{Env}

-- The counters that the request increments, with their labels.
pub data Metric : Type 0 where
  pii_redactions : Metric
  injection_detections : Mode → Metric
  cache_lookups : Bool → Metric
  rate_limit_rejections : String → Metric
  chat_completions : String → String → Metric
  usage_cost : String → ℕ → Metric
  usage_tokens : String → String → ℕ → Metric

-- The session and the counters, which the pipeline writes to.
pub record Trail : Type 0 where
  pub db : Db
  pub metrics : List Metric

pub data Verdict : Type 0 where
  passed : ChatCompletionRequest → Verdict
  blocked crashed : Verdict

abbrev pub blocks : Mode → Bool
blocks block = true
blocks log = false

-- The generator over the messages: those of the user that are text.
abbrev user_text_of : String → Content → List String → List String
user_text_of role (text s) rest = if role ≟ "user" then s ∷ rest else rest
user_text_of role (parts s) rest = rest
user_text_of role absent rest = rest

unfoldable pub user_texts : List ChatMessage → List String
user_texts [] = []
user_texts (m ∷ messages) = user_text_of m.role m.content (user_texts messages)

-- `"\n".join`
unfoldable pub join_lines : List String → String
join_lines [] = ""
join_lines (s ∷ []) = s
join_lines (s ∷ t ∷ rest) = String.◌++◌ s (String.◌++◌ "\n" (join_lines (t ∷ rest)))

abbrev pub body_with : ChatCompletionRequest → List ChatMessage → ChatCompletionRequest
body_with body messages = record body { messages = messages }

module _ (env : Env) (tenant : TenantContext) (correlation_id : Option String) where
  unfoldable pub audit : String → Detail → Trail → Trail
  audit event_type detail t = record t {
    db =
        write_audit_event
          (record {
            tenant_id = some tenant.tenant_id;
            event_type = event_type;
            correlation_id = correlation_id;
            detail = detail;
          })
          t.db;
  }

  -- What redaction leaves: the messages, with an event and a count if it found anything. It raises if
  -- Presidio does, or if the database refuses the event.
  unfoldable pub redacted :
      Option (List ChatMessage × List String) → Trail → Trail × Option (List ChatMessage)
  unfolding audit
  redacted none t = (t, none)
  redacted (some (messages, [])) t = (t, some messages)
  redacted (some (messages, kind ∷ kinds)) t = (
    audit "pii.redacted" (entity_types (kind ∷ kinds))
        (record t { metrics = t.metrics ++ pii_redactions ∷ [] }),
    (if storable correlation_id then some messages else none),
  )

  unfoldable pub redaction : List ChatMessage → Trail → Trail × Option (List ChatMessage)
  redaction messages t =
      if tenant.pii_redaction_enabled
      then redacted (redact_messages env.analyze env.anonymize messages) t
      else (t, some messages)

  unfoldable pub flagged : InjectionVerdict → Trail → Trail
  unfolding audit
  flagged verdict t =
      let mode = tenant.injection_detection_mode in
      audit (if blocks mode then "injection.blocked" else "injection.detected")
        (injection verdict.score verdict.matched_heuristic verdict.matched_embedding mode)
        (record t { metrics = t.metrics ++ injection_detections mode ∷ [] })

  unfoldable pub judged : ChatCompletionRequest → InjectionVerdict → Trail → Trail × Verdict
  unfolding flagged
  judged body verdict t =
      if leb tenant.injection_detection_threshold verdict.score
      then (
        flagged verdict t,
        (if storable correlation_id
            then if blocks tenant.injection_detection_mode then blocked else passed body
            else crashed),
      )
      else (t, passed body)

  unfoldable pub detection : ChatCompletionRequest → Trail → Trail × Verdict
  detection body t =
      if tenant.injection_detection_enabled
      then (elim (detect env.searches env.similarity (join_lines (user_texts body.messages))) [
        | none ↦ (t, crashed)
        | some verdict ↦ judged body verdict t
      ])
      else (t, passed body)

  unfoldable pub detected :
      ChatCompletionRequest → Trail × Option (List ChatMessage) → Trail × Verdict
  detected body (t, none) = (t, crashed)
  detected body (t, some messages) = detection (body_with body messages) t

  unfoldable pub run_security_pipeline : ChatCompletionRequest → Trail → Trail × Verdict
  run_security_pipeline body t = detected body (redaction body.messages t)
