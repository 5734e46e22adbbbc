-- ===== src/Model/Inquiry.antt =====
-- pkg/model/inquiry.go.
use pangreksa_aigateway.Prelude.{ℕ, Bool, List}
use pangreksa_aigateway.Prelude.Texts.{Text}
use pangreksa_aigateway.Prelude.Int.{ℤ}
use pangreksa_aigateway.Prelude.Dict.{Dict}

pub record Message : Type 0 where
  pub role : Text
  pub content : Text
  pub name : Text

pub record ToolFunction : Type 0 where
  pub name : Text
  pub description : Text
  pub parameters : Text

pub record Tool : Type 0 where
  pub type : Text
  pub function : ToolFunction

pub record InquiryRequest (F : Type 0) : Type 0 where
  pub request_id : Text
  pub user_id : Text
  pub org_id : Text
  pub provider : Text
  pub model : Text
  pub messages : List Message
  pub tools : List Tool
  pub stream : Bool
  pub temperature : F
  pub max_tokens : ℤ
  pub prompt_fqn : Text
  pub variables : Dict Text
  pub metadata : Dict Text
  pub received_at : ℕ

pub record TransactionEvent (F : Type 0) : Type 0 where
  pub event_id : Text
  pub request_id : Text
  pub gateway_id : Text
  pub org_id : Text
  pub user_id : Text
  pub provider : Text
  pub model : Text
  pub status : Text
  pub latency_ms : ℕ
  pub ttft_ms : ℕ
  pub input_tokens : ℤ
  pub output_tokens : ℤ
  pub cost_usd : F
  pub cache_status : Text
  pub prompt_fqn : Text
  pub skills_used : List Text
  pub mcps_called : List Text
  pub guardrails_hit : List Text
  pub metadata : Dict Text
  pub created_at : Text
