-- ===== src/Edge/Tests.antt =====
-- A request that crashes, one that is answered, and an id that is too long.
use aegis_gateway.Prelude.{◌+◌, ◌≡◌, String, false, Option, some, []}
use aegis_gateway.Database.{AuditLog, UsageRecord, reason}
use aegis_gateway.Migrations.{Schema}
use aegis_gateway.Edge.{
  Request, Handled, text, http, enveloped, Labels, app, openai_style_http_exception_handler,
}
use aegis_gateway.Edge.Laws.{header_of, status_of, count, app_lem}

abbrev request : Request
request = record { method = "POST"; correlation_id = some "abc" }

-- The handler refuses with a plain text.
abbrev inner : String → Option String × Handled
inner id =
    (some "/admin/login", http (record { status_code = 401; detail = text "no"; headers = [] }))

abbrev labels : Labels
labels = record { method = "POST"; route = "/admin/login"; status = 401 }

app_lem_example :
    let (series, outcome) = app request "new" inner [] in
    (count labels series ≡ 1 + count labels [])
    × (header_of outcome ≡ some "abc")
    × (status_of outcome ≡ some (401, enveloped "no"))
unfolding openai_style_http_exception_handler
app_lem_example = app_lem request "new" inner [] labels

abbrev bare : Schema
bare = record { tables = []; roles = []; grants = [] }

abbrev long_id : String
long_id = "0123456789012345678901234567890123456789012345678901234567890123456789"

abbrev long_event : AuditLog
long_event = record {
  tenant_id = some "t1";
  event_type = "auth.failure";
  correlation_id = some long_id;
  detail = reason "missing_bearer_token";
}

abbrev long_usage : UsageRecord
long_usage = record {
  tenant_id = "t1";
  api_key_id = "k1";
  provider = "openai";
  model = "gpt-4o";
  prompt_tokens = 1;
  completion_tokens = 1;
  total_tokens = 2;
  cost_usd = 1;
  cache_hit = false;
  correlation_id = some long_id;
}
