-- ===== src/Tests/Guardrails.antt =====
-- Runs of the guardrail engine.
use pangreksa_aigateway.Prelude.{◌≡◌, [], ◌∷◌, none, some}
use pangreksa_aigateway.Prelude.Texts.{Text, codes, contains}
use pangreksa_aigateway.Model.Policy.{GuardrailConfig}
use pangreksa_aigateway.Policy.Guardrail.{Engine, Checker, run_hook}
use pangreksa_aigateway.Policy.Guardrail.Blocking.{
  blocks, find_first, block_result, run_hook-block_result,
}
use pangreksa_aigateway.Tests.Instances.{plain}

abbrev guardrail : Text → Text → GuardrailConfig
guardrail name enforcement = record {
  id = name;
  type = codes "regex";
  hook = codes "llm_input";
  mode = codes "block";
  enforcement = enforcement;
  config = [];
}

abbrev engine : Engine
engine = record {
  rules =
      guardrail (codes "watch") (codes "audit") ∷ guardrail (codes "stop") (codes "enforce") ∷ [];
}

-- A checker that looks for a word.
abbrev word_check : Checker
word_check rule content = some (contains content (codes "secret"))

run_hook-block_result_example :
    run_hook plain word_check none engine (codes "llm_input") (codes "a secret")
    ≡ block_result plain
        (codes "llm_input")
        (find_first (blocks word_check (codes "llm_input") (codes "a secret")) engine.rules)
run_hook-block_result_example =
    run_hook-block_result plain word_check engine (codes "llm_input") (codes "a secret")
