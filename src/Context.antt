-- ===== src/Context.antt =====
-- src/aegis_gateway/schemas/auth.py: what authentication hands to the rest of a request.
use aegis_gateway.Prelude.{ℕ, String, Bool}

pub data Mode : Type 0 where
  block log : Mode

-- Amounts of money are in units of 10^-8 US dollars, scores in thousandths. The limits are columns that
-- the schema leaves signed; a negative one would refuse every request, as 0 does here.
pub record TenantContext : Type 0 where
  pub tenant_id : String
  pub tenant_name : String
  pub api_key_id : String
  pub monthly_budget_usd : ℕ
  pub rate_limit_rpm : ℕ
  pub rate_limit_tpm : ℕ
  pub max_concurrent_requests : ℕ
  pub pii_redaction_enabled : Bool
  pub injection_detection_enabled : Bool
  pub injection_detection_threshold : ℕ
  pub injection_detection_mode : Mode
  pub cache_enabled : Bool
