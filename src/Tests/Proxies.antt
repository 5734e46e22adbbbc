-- ===== src/Tests/Proxies.antt =====
-- Statuses of some refused requests.
use pangreksa_aigateway.Prelude.{◌≡◌, [], if◌then◌else◌}
use pangreksa_aigateway.Prelude.Texts.{Text, codes}
use pangreksa_aigateway.Prelude.Int.{pos}
use pangreksa_aigateway.Model.Policy.{GuardrailConfig}
use pangreksa_aigateway.Policy.RateLimit.Check.{exceeded as rate_exceeded}
use pangreksa_aigateway.Policy.RateLimit.Rules.{ParsedRule as RateRule}
use pangreksa_aigateway.Policy.Budget.Check.{exceeded as budget_exceeded}
use pangreksa_aigateway.Policy.Budget.Rules.{ParsedRule as SpendingRule}
use pangreksa_aigateway.Policy.Guardrail.{blocked}
use pangreksa_aigateway.Proxy.{step_error, map_pipeline_error}
use pangreksa_aigateway.Proxy.Statuses.{is_limit, refusal_statuses}
use pangreksa_aigateway.Tests.Instances.{plain, units}

abbrev rate : RateRule
rate = record {
  raw = record { id = codes "entitlement"; priority = pos 1; rule_yaml = [] };
  limit_rpm = pos 1;
  entity_type = codes "user";
}

abbrev spending : SpendingRule units
spending = record {
  raw = record { id = codes "rate limit"; priority = pos 1; rule_yaml = [] };
  limit_usd = 5;
  period = codes "daily";
  entity_type = codes "user";
}

abbrev guard : GuardrailConfig
guard = record {
  id = codes "no rate limit talk";
  type = codes "regex";
  hook = codes "llm_input";
  mode = codes "block";
  enforcement = codes "enforce";
  config = [];
}

abbrev denial : Text
denial = step_error (codes "guardrail input") (blocked plain guard (codes "llm_input"))

refusal_statuses_example :
    ((map_pipeline_error plain (step_error (codes "rate limit") (rate_exceeded plain rate))).0
      ≡ 429)
    × ((map_pipeline_error plain (step_error (codes "budget") (budget_exceeded plain spending 6))).0
        ≡ 429)
    × ((map_pipeline_error plain denial).0 ≡ (if is_limit denial then 429 else 403))
refusal_statuses_example = refusal_statuses units plain rate spending 6 guard (codes "llm_input")
