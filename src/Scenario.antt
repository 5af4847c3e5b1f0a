-- ===== src/Scenario.antt =====
-- Concrete data for the tests of the gateway: a tenant, a request, a provider and external functions.
use aegis_gateway.Prelude.{
  String, true, false, Option, none, some, [], ◌∷◌, ◌≟◌, ◌==◌, if◌then◌else◌,
}
use aegis_gateway.Context.{TenantContext, block}
use aegis_gateway.Chat.{text, ChatCompletionRequest, ChatCompletionResponse}
use aegis_gateway.Security.{best}
use aegis_gateway.Security.Pipeline.{Trail}
use aegis_gateway.Upstream.{value}
use aegis_gateway.Environment.{Env}
use aegis_gateway.Proxy.Types.{World, broken, Provider, Caller}

abbrev pub response : ChatCompletionResponse
response = record {
  id = "r1";
  created = 0;
  model = "llama3";
  choices = record { content = some "hello"; raw = "{}" } ∷ [];
  usage = some (record { prompt_tokens = 12; completion_tokens = 1; total_tokens = 13 });
  extra = "";
}

-- The analyzer finds one kind of name in the text "Ann"; the first pattern is "ignore".
abbrev pub env : Env
env = record {
  encode_length = λ model s. if s ≟ "" then some 0 else some 1;
  analyze = λ s. if s ≟ "Ann" then some ("PERSON" ∷ []) else some [];
  anonymize = λ s. some "<PERSON>";
  searches = λ i s. if s ≟ "ignore" then i == 0 else false;
  similarity = λ s. best 100;
  dump_json = λ r. r.id;
  load_json = λ s. some response;
  digest = λ p. p.model;
  month_of = λ now. 0;
  round_6 = λ cost. cost;
  fresh_id = λ now. "s1";
  choice_json = λ content. content;
  first_500 = λ s. s;
  describe = λ s. s;
}

abbrev pub tenant : TenantContext
tenant = record {
  tenant_id = "t1";
  tenant_name = "Acme";
  api_key_id = "k1";
  monthly_budget_usd = 1_000_000;
  rate_limit_rpm = 60;
  rate_limit_tpm = 1_000;
  max_concurrent_requests = 2;
  pii_redaction_enabled = true;
  injection_detection_enabled = true;
  injection_detection_threshold = 800;
  injection_detection_mode = block;
  cache_enabled = false;
}

abbrev pub caller : Caller
caller = record {
  tenant = tenant;
  correlation_id = some "c1";
  idempotency_key = some "key";
  cache_ttl_seconds = 300;
}

abbrev pub asking : String → ChatCompletionRequest
asking s = record {
  model = "llama3";
  messages = record { role = "user"; content = text s; name = none; extra = "" } ∷ [];
  stream = false;
  extra = "";
}

-- Its streams break after two chunks.
abbrev pub provider : Provider
provider = record {
  name = "ollama";
  chat_completion = λ body. value response;
  stream_chat_completion = λ body. record {
    chunks =
        record { json = "c1"; contents = "hel" ∷ [] }
        ∷ record { json = "c2"; contents = "lo" ∷ [] }
        ∷ [];
    end = broken;
  };
}

abbrev pub providers : String → Option Provider
providers name = if name ≟ "ollama" then some provider else none

abbrev pub trail : Trail
trail = record {
  db = record {
    context = record { tenant_id = none; bypass = false };
    audit_log = [];
    usage_records = [];
    refused = false;
  };
  metrics = [];
}

abbrev pub world : World
world = record {
  now = 1_000;
  redis = record {
    limits = record { rpm = none; tpm = none; budget = λ m. none };
    slots = none;
    locks = λ k. none;
    responses = λ k. none;
    cache = λ k. none;
  };
  trail = trail;
}
