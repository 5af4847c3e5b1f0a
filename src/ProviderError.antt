-- ===== src/ProviderError.antt =====
-- src/aegis_gateway/providers/errors.py and schemas/errors.py: what a provider adapter raises, and the HTTP
-- error that the caller sees.
use aegis_gateway.Prelude.{ℕ, String, ◌&&◌, Option, none, leb, ltb, if◌then◌else◌}

-- `ProviderError` and its subclasses. `str(exc)` of the others is their message.
pub data ProviderError : Type 0 where
  circuit_open timeout connection malformed : String → ProviderError
  status : ℕ → String → ProviderError

-- The body {"error": {"message", "type", "param", "code"}}; `param` is never given.
pub record OpenaiError : Type 0 where
  pub message : String
  pub error_type : String
  pub code : String

unfoldable pub openai_error : String → String → String → OpenaiError
openai_error message error_type code = record {
  message = message;
  error_type = error_type;
  code = code;
}

pub record HttpException : Type 0 where
  pub status_code : ℕ
  pub detail : OpenaiError
  pub retry_after : Option ℕ

unfoldable pub unauthorized_error : String → HttpException
unfolding openai_error
unauthorized_error message = record {
  status_code = 401;
  detail = openai_error message "invalid_request_error" "invalid_api_key";
  retry_after = none;
}

upstream : ℕ → String → String → HttpException
unfolding openai_error
upstream status_code message code = record {
  status_code = status_code;
  detail = openai_error message "upstream_error" code;
  retry_after = none;
}

-- `body` is the text of the upstream's answer; `first_500` is `[:500]`.
module _ (first_500 : String → String) where
  unfoldable pub provider_error_to_http_exception : ProviderError → HttpException
  unfolding upstream
  provider_error_to_http_exception (circuit_open message) = upstream 503 message "circuit_open"
  provider_error_to_http_exception (timeout message) = upstream 504 message "upstream_timeout"
  provider_error_to_http_exception (connection message) =
      upstream 502 message "upstream_connection_error"
  provider_error_to_http_exception (status code body) =
      upstream (if leb 400 code && ltb code 500 then code else 502) (first_500 body)
        "upstream_error"
  provider_error_to_http_exception (malformed message) =
      upstream 502 message "unknown_provider_error"
