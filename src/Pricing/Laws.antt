-- ===== src/Pricing/Laws.antt =====
-- What the price table means: which entry applies, and how the two costs relate.
use aegis_gateway.Prelude.{
  ℕ, zero, suc, ◌+◌, ◌*◌, ◌≤◌, ◌<◌, ◌≡◌, ◌≢◌, String, arith, ap, eq_iff, ◌↔◌,
}
use aegis_gateway.Pricing.{price_for, estimate_prompt_cost_usd, calculate_cost_usd}

price_for_bounds :
    (model provider_name : String)
    → provider_name ≢ "ollama"
    → (15 ≤ (price_for model provider_name).prompt)
      × ((price_for model provider_name).prompt ≤ (price_for model provider_name).completion)
unfolding price_for
price_for_bounds model provider_name h = ground (arith, eq_iff provider_name "ollama")

price_for_ollama :
    (model provider_name : String)
    → provider_name ≡ "ollama"
    → (price_for model provider_name).prompt ≡ 0
unfolding price_for
price_for_ollama model provider_name h = ground (arith, eq_iff provider_name "ollama")

-- A positive price makes a positive product.
pos-mul : (n price : ℕ) → 0 < n → 0 < price → 0 < n * price
pos-mul n price h k = grind arith

pos_left : (n price : ℕ) → 0 < n * price → 0 < n
pos_left zero price h = omega (arith, h)
pos_left (suc n) price h = omega arith

-- The pre-flight estimate is positive, and so the budget is consulted, exactly if the provider is
-- not "ollama" and there is a prompt token.
pub estimate_pos_iff :
    (model : String) (prompt_tokens : ℕ) (provider_name : String)
    → (0 < estimate_prompt_cost_usd model prompt_tokens provider_name)
      ↔ ((provider_name ≢ "ollama") × (0 < prompt_tokens))
unfolding estimate_prompt_cost_usd
estimate_pos_iff model tokens provider_name = (
  λ pos. (
    λ same.
        let free = price_for_ollama model provider_name same in
        absurd (omega (arith, ap (λ (p : ℕ). tokens * p) free)),
    pos_left tokens _ pos,
  ),
  λ h. pos-mul tokens _ h.1 (omega (arith, (price_for_bounds model provider_name h.0).0)),
)

prompt-le-completion :
    (model provider_name : String)
    → (price_for model provider_name).prompt ≤ (price_for model provider_name).completion
unfolding price_for
prompt-le-completion model provider_name = ground arith

mul_mono : (n a b : ℕ) → a ≤ b → n * a ≤ n * b
mul_mono n a b h = grind arith

-- The durable cost of a request is at least what the guardrail would estimate for all of its
-- tokens as prompt tokens.
pub estimate-le-cost :
    (model : String) (prompt_tokens completion_tokens : ℕ) (provider_name : String)
    → estimate_prompt_cost_usd model (prompt_tokens + completion_tokens) provider_name
      ≤ calculate_cost_usd model prompt_tokens completion_tokens provider_name
unfolding estimate_prompt_cost_usd calculate_cost_usd
estimate-le-cost model prompt_tokens completion_tokens provider_name =
    omega (arith, mul_mono completion_tokens _ _ (prompt-le-completion model provider_name))
