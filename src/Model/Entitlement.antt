-- ===== src/Model/Entitlement.antt =====
-- pkg/model/entitlement.go. `expires_at` is nanoseconds on the clock that the caches read.
use pangreksa_aigateway.Prelude.{ℕ, List}
use pangreksa_aigateway.Prelude.Texts.{Text}
use pangreksa_aigateway.Prelude.Int.{ℤ}

pub record UserEntitlement (F : Type 0) : Type 0 where
  pub user_id : Text
  pub org_id : Text
  pub allowed_prompts : List Text
  pub allowed_skills : List Text
  pub allowed_mcps : List Text
  pub permissions : List Text
  pub budget_limit_usd : F
  pub rate_limit_rpm : ℤ
  pub rate_limit_tpm : ℤ
  pub data_scope : Text
  pub expires_at : ℕ
