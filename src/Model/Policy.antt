-- ===== src/Model/Policy.antt =====
-- pkg/model/policy.go.
use pangreksa_aigateway.Prelude.Texts.{Text}
use pangreksa_aigateway.Prelude.Int.{ℤ}
use pangreksa_aigateway.Prelude.Dict.{Dict}

pub record GuardrailConfig : Type 0 where
  pub id : Text
  pub type : Text
  pub hook : Text
  pub mode : Text
  pub enforcement : Text
  pub config : Dict Text

pub record BudgetRule : Type 0 where
  pub id : Text
  pub priority : ℤ
  pub rule_yaml : Text

pub record RateLimitRule : Type 0 where
  pub id : Text
  pub priority : ℤ
  pub rule_yaml : Text
