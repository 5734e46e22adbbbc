-- ===== src/Model/Config.antt =====
-- pkg/model/config.go.
use pangreksa_aigateway.Prelude.{Bool, List}
use pangreksa_aigateway.Prelude.Texts.{Text}
use pangreksa_aigateway.Prelude.Int.{ℤ}
use pangreksa_aigateway.Model.Policy.{GuardrailConfig, BudgetRule, RateLimitRule}

pub record ProxyConfig : Type 0 where
  pub provider : Text
  pub port : ℤ
  pub base_url : Text
  pub api_key_enc : Text

pub record PromptConfig : Type 0 where
  pub fqn : Text
  pub content : Text
  pub variables : List Text

pub record SkillConfig : Type 0 where
  pub name : Text
  pub description : Text
  pub content : Text
  pub preload : Bool

pub record McpTool : Type 0 where
  pub name : Text
  pub destructive : Bool
  pub description : Text

pub record McpConfig : Type 0 where
  pub name : Text
  pub url : Text
  pub tools : List McpTool

pub record RegistryConfig : Type 0 where
  pub prompts : List PromptConfig
  pub skills : List SkillConfig
  pub mcps : List McpConfig

pub record PolicyConfig : Type 0 where
  pub guardrails : List GuardrailConfig
  pub budget_rules : List BudgetRule
  pub rate_rules : List RateLimitRule

pub record GatewayConfig : Type 0 where
  pub version : Text
  pub gateway_id : Text
  pub proxies : List ProxyConfig
  pub registry : RegistryConfig
  pub policies : PolicyConfig
