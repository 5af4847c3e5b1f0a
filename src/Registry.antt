-- ===== src/Registry.antt =====
-- src/aegis_gateway/providers/registry.py: which provider serves a model. The dict of providers is the
-- function `providers`, its `get`.
pub mod Adapters
pub mod Calls
pub mod Tests
use aegis_gateway.Prelude.{
  String, Bool, true, false, Option, none, some, List, [], ◌∷◌, starts_with, if◌then◌else◌, ◌≡◌,
  arith,
}

-- `_MODEL_PREFIX_ROUTES`
abbrev pub model_prefix_routes : List (String × String)
model_prefix_routes =
    ("gpt-", "openai") ∷ ("o1", "openai") ∷ ("o3", "openai") ∷ ("o4", "openai") ∷ []

abbrev pub default_provider : String
default_provider = "ollama"

module _ {ℓ} {P : Type ℓ} (providers : String → Option P) where
  -- The loop over the routes, and the fallback below it; `none` is `UnknownProviderError`.
  resolve_from : List (String × String) → String → Option P
  resolve_from [] model = providers default_provider
  resolve_from ((prefix, name) ∷ routes) model =
      let rest = resolve_from routes model in
      if starts_with model prefix
      then (elim (providers name) [ some provider ↦ some provider | none ↦ rest ])
      else rest

  unfoldable pub resolve : String → Option P
  unfolding resolve_from
  resolve = resolve_from model_prefix_routes

-- Whether the model's name has one of the routed prefixes.
abbrev pub is_routed : List (String × String) → String → Bool
is_routed [] model = false
is_routed ((prefix, name) ∷ routes) model =
    if starts_with model prefix then true else is_routed routes model

module _ {ℓ} {P : Type ℓ} (providers : String → Option P) where
  -- A routed model goes to "openai" if that is configured; every other model, and a routed one without
  -- "openai", goes to "ollama". So the call fails exactly if the one that it falls to is missing.
  pub resolve_lem :
      (model : String)
      → resolve providers model ≡ (
          if is_routed model_prefix_routes model
          then (elim (providers "openai") [
            | some provider ↦ some provider
            | none ↦ providers "ollama"
          ])
          else providers "ollama")
  unfolding resolve
  resolve_lem model = ground arith
