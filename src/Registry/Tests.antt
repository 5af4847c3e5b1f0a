-- ===== src/Registry/Tests.antt =====
-- The call of a model that OpenAI does not serve.
use aegis_gateway.Prelude.{◌≡◌, true, some, [], ◌∷◌}
use aegis_gateway.CodePoints.{codes}
use aegis_gateway.Registry.{resolve}
use aegis_gateway.Registry.Adapters.{Settings, rstrip_slashes, build_provider_registry}
use aegis_gateway.Registry.Calls.{call_of, resolve-calls}

abbrev settings : Settings
settings = record {
  openai_api_key = codes "sk-1";
  ollama_base_url = codes "http://localhost:11434/";
  provider_timeout_seconds = 30;
  provider_max_attempts = 3;
  circuit_breaker_failure_threshold = 5;
  circuit_breaker_recovery_seconds = 30;
}

resolve-calls_example :
    call_of true (resolve (build_provider_registry settings) "llama3")
    ≡ some (record {
      url = codes "http://localhost:11434/v1/chat/completions";
      headers = ("Content-Type", codes "application/json") ∷ [];
      timeout = 30;
      stream = true;
    })
unfolding rstrip_slashes
resolve-calls_example = resolve-calls settings "llama3" true
