-- ===== src/Pricing.antt =====
-- src/aegis_gateway/services/pricing.py. Prices are in US cents for 1,000,000 tokens, so that a number of
-- tokens times a price is a cost in units of 10^-8 US dollars, with no rounding; the code's floats
-- are these numbers up to their precision.
pub mod Laws
use aegis_gateway.Prelude.{ℕ, ◌+◌, ◌*◌, String, List, [], ◌∷◌, starts_with, ◌≟◌, if◌then◌else◌}

-- What one token costs, for prompt and completion.
pub record Price : Type 0 where
  pub prompt : ℕ
  pub completion : ℕ

abbrev cents : ℕ → ℕ → Price
cents prompt completion = record { prompt = prompt; completion = completion }

-- `_PRICE_PER_1M_TOKENS_USD`, in the order of the dict.
abbrev pub price_per_1m_tokens : List (String × Price)
price_per_1m_tokens =
    ("gpt-4o-mini", cents 15 60)
    ∷ ("gpt-4o", cents 250 1000)
    ∷ ("gpt-4-turbo", cents 1000 3000)
    ∷ ("gpt-4", cents 3000 6000)
    ∷ ("gpt-3.5-turbo", cents 50 150)
    ∷ []

abbrev pub default_price : Price
default_price = cents 100 300

abbrev pub ollama_price : Price
ollama_price = cents 0 0

price_from : List (String × Price) → String → Price
price_from [] model = default_price
price_from ((prefix, price) ∷ prices) model =
    let rest = price_from prices model in if starts_with model prefix then price else rest

unfoldable pub price_for : String → String → Price
unfolding price_from
price_for model provider_name =
    if provider_name ≟ "ollama" then ollama_price else price_from price_per_1m_tokens model

unfoldable pub estimate_prompt_cost_usd : String → ℕ → String → ℕ
estimate_prompt_cost_usd model prompt_tokens provider_name =
    prompt_tokens * (price_for model provider_name).prompt

unfoldable pub calculate_cost_usd : String → ℕ → ℕ → String → ℕ
calculate_cost_usd model prompt_tokens completion_tokens provider_name =
    prompt_tokens * (price_for model provider_name).prompt
    + completion_tokens * (price_for model provider_name).completion
