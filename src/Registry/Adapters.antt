-- ===== src/Registry/Adapters.antt =====
-- The adapters that src/aegis_gateway/providers/registry.py builds (`build_provider_registry`), and what an
-- adapter of providers/openai_compatible.py sends with each call (`__init__`, `_headers` and the arguments of
-- `_post_once` and `_open_stream`). URLs and keys are lists of code points; the JSON of the payload is left out.
use aegis_gateway.Prelude.{
  ℕ, String, Bool, Option, none, some, List, [], ◌∷◌, ◌++◌, ◌==◌, ◌≟◌, if◌then◌else◌,
}
use mathlib.Core.List.{reverse}
use aegis_gateway.CodePoints.{codes, is_empty}
use aegis_gateway.Breaker.{Breaker}
use aegis_gateway.Breaker

-- The settings that are read.
pub record Settings : Type 0 where
  pub openai_api_key : List ℕ
  pub ollama_base_url : List ℕ
  pub provider_timeout_seconds : ℕ
  pub provider_max_attempts : ℕ
  pub circuit_breaker_failure_threshold : ℕ
  pub circuit_breaker_recovery_seconds : ℕ

pub record Adapter : Type 0 where
  pub name : String
  pub base_url : List ℕ
  pub api_key : Option (List ℕ)
  pub timeout : ℕ
  pub max_attempts : ℕ
  pub breaker : Breaker

abbrev pub strip_slashes : List ℕ → List ℕ
strip_slashes [] = []
strip_slashes (c ∷ s) = let rest = strip_slashes s in if c == b'/' then rest else c ∷ s

-- `rstrip("/")`
unfoldable pub rstrip_slashes : List ℕ → List ℕ
rstrip_slashes s = reverse (strip_slashes (reverse s))

-- `__init__`, whose caller always gives a circuit breaker.
unfoldable pub adapter : String → List ℕ → Option (List ℕ) → ℕ → ℕ → Breaker → Adapter
unfolding rstrip_slashes
adapter name base_url api_key timeout max_attempts circuit_breaker = record {
  name = name;
  base_url = rstrip_slashes base_url;
  api_key = api_key;
  timeout = timeout;
  max_attempts = max_attempts;
  breaker = circuit_breaker;
}

abbrev pub authorization : Option (List ℕ) → List (String × List ℕ)
authorization none = []
authorization (some key) =
    if is_empty key then [] else ("Authorization", codes "Bearer " ++ key) ∷ []

-- `_headers`
unfoldable pub headers : Adapter → List (String × List ℕ)
headers a = ("Content-Type", codes "application/json") ∷ authorization a.api_key

-- What is sent: `payload["stream"]` tells the two kinds of call apart.
pub record Sent : Type 0 where
  pub url : List ℕ
  pub headers : List (String × List ℕ)
  pub timeout : ℕ
  pub stream : Bool

unfoldable pub sent : Adapter → Bool → Sent
unfolding headers
sent a stream = record {
  url = a.base_url ++ codes "/chat/completions";
  headers = headers a;
  timeout = a.timeout;
  stream = stream;
}

abbrev pub openai_base_url : List ℕ
openai_base_url = codes "https://api.openai.com/v1"

-- `settings.openai_api_key or None`
abbrev pub or_none : List ℕ → Option (List ℕ)
or_none key = if is_empty key then none else some key

unfoldable pub breaker_of : Settings → Breaker
unfolding Breaker.new
breaker_of s = Breaker.new s.circuit_breaker_failure_threshold s.circuit_breaker_recovery_seconds

-- The dict of providers, by its `get`.
unfoldable pub build_provider_registry : Settings → String → Option Adapter
unfolding adapter breaker_of rstrip_slashes
build_provider_registry s name =
    if name ≟ "openai"
    then some (
        adapter "openai" openai_base_url (or_none s.openai_api_key) s.provider_timeout_seconds
          s.provider_max_attempts (breaker_of s))
    else if name ≟ "ollama"
    then some (
        adapter "ollama" (rstrip_slashes s.ollama_base_url ++ codes "/v1") none
          s.provider_timeout_seconds s.provider_max_attempts (breaker_of s))
    else none
