-- ===== src/Tests/Pipelines.antt =====
-- Runs of the pipeline.
use native.Mathlib.Nat.{add-zero}
use pangreksa_aigateway.Prelude.{ℕ, ◌≡◌, refl, ◌⊎◌, true, [], ◌∷◌, none, ok, err}
use pangreksa_aigateway.Prelude.Texts.{Text, codes, text_eq}
use pangreksa_aigateway.Prelude.Dict.{lookup, insert}
use pangreksa_aigateway.Prelude.Int.{pos}
use pangreksa_aigateway.Cache.Local
use pangreksa_aigateway.Cache.Redis
use pangreksa_aigateway.Entitlement
use pangreksa_aigateway.Policy.RateLimit.Check as Rates
use pangreksa_aigateway.Policy.Budget.Counters.{replied, incr_by_float}
use pangreksa_aigateway.Policy.Budget.Check as Budgets
use pangreksa_aigateway.Policy.Guardrail
use pangreksa_aigateway.Registry.Skill.{summaries, summaries_of}
use pangreksa_aigateway.Llm.Breaker.{new_circuit_breaker, get_or_create, store, allow_switch, allow}
use pangreksa_aigateway.Llm.Dispatcher
use pangreksa_aigateway.Llm.Dispatcher.{Dispatcher, build_body, send, dispatch}
use pangreksa_aigateway.Daemon.Producer.{new_producer}
use pangreksa_aigateway.Daemon.Pipeline.{Parts, Occasion, World}
use pangreksa_aigateway.Daemon.Pipeline.Steps.{
  resolve_entitlement, add_prompt, add_skills, guard_input, limit_rate, limit_cost, send_request,
  guard_output, settle, check_policies, complete, prepare, execute,
}
use pangreksa_aigateway.Daemon.Pipeline.Charging.{Charged, execute-Charged}
use pangreksa_aigateway.Daemon.Pipeline.Refusals.{
  failed_is_free, CameThrough, outward_needs_clearance,
}
use pangreksa_aigateway.Tests.Instances.{
  plain, units, counters, float_counters, no_counters, entitlements, alice, inquiry,
}

abbrev calendar : Budgets.Calendar
calendar = record { day_text = λ now. codes "2026-01-31"; month_text = λ now. codes "2026-01" }

-- One budget rule with the limit 5, and no other rules.
abbrev parts : Parts units
parts = record {
  prompt_reg = record { prompts = [] };
  guardrail = record { rules = [] };
  ratelimit = record { rules = [] };
  budget = record {
    rules =
        record {
          raw = record { id = codes "day"; priority = pos 1; rule_yaml = [] };
          limit_usd = 5;
          period = codes "daily";
          entity_type = codes "user";
        }
        ∷ [];
  };
  gateway_id = codes "g1";
}

-- The user is in no cache, and the provider answers with this status.
abbrev occasion : ℕ → Occasion units
occasion status = record {
  resolve_at = 7;
  resolving = record {
    get_fault = none;
    set_fault = none;
    set_arrived = true;
    server = λ user_id org_id. Entitlement.responded 200 (ok alice);
  };
  glob = λ pattern name. none;
  prompt_ends = none;
  prompt_order = [];
  skills_end = none;
  skills = [];
  input_ends = none;
  rate_at = 8;
  rate_delivery = λ i. Rates.answered;
  budget_at = 9;
  budget_delivery = λ i. replied true;
  asked = 10;
  ended = 11;
  provider = record {
    marshal = λ payload. ok (codes "{}");
    server = λ request. Dispatcher.responded status (codes "hello");
  };
  parse_response = λ body. record {
    choices = codes "hello" ∷ [];
    prompt_tokens = pos 1000;
    completion_tokens = pos 500;
    total_tokens = pos 1500;
  };
  output_ends = none;
  record_at = 12;
  record_delivery = λ i. replied true;
  event_id = codes "e1";
  latency_ms = 4;
  created_at = codes "2026-01-31T00:00:00Z";
}

abbrev world : World {fl = units} entitlements counters float_counters
world = record {
  l1 = record { m = [] };
  l2 = λ k. none;
  rate_counters = no_counters;
  cost_counters = no_counters;
  dispatcher = record {
    providers =
        (codes "openai", record { base_url = codes "https://host"; api_key = codes "sk-1" }) ∷ [];
    crypto_key = [];
    cb = new_circuit_breaker;
  };
  producer = new_producer;
}

is_answered :
    (execute plain entitlements counters float_counters calendar parts
      (occasion 200)
      inquiry
      world).0
    ≡ ok (codes "hello")
unfolding execute prepare resolve_entitlement Entitlement.resolve Local.get lookup insert text_eq
    Entitlement.resolve_remote Redis.get Redis.set Local.set Entitlement.fetch_from_server
    Entitlement.read_reply add_prompt add_skills check_policies guard_input Guardrail.check_input
    Guardrail.check_output Guardrail.run_hook Guardrail.run_rules limit_rate Rates.check
    Rates.check_rules limit_cost Budgets.check Budgets.check_rules Budgets.touch complete
    send_request dispatch send Dispatcher.read_reply build_body allow allow_switch get_or_create
    store new_circuit_breaker summaries summaries_of guard_output settle Budgets.budget_key
    Budgets.current_period incr_by_float Budgets.rule_matches
is_answered = refl

execute-Charged_example :
    Charged plain entitlements counters float_counters calendar parts
      (occasion 200)
      inquiry
      world
      (execute plain entitlements counters float_counters calendar parts
        (occasion 200)
        inquiry
        world).1
      (codes "hello")
execute-Charged_example =
    execute-Charged plain entitlements counters float_counters calendar parts (occasion 200) inquiry
      world (codes "hello") is_answered

is_failed :
    (e : Text) × ((execute plain entitlements counters float_counters calendar parts
        (occasion 503)
        inquiry
        world).0
      ≡ err e)
unfolding execute prepare resolve_entitlement Entitlement.resolve Local.get lookup insert text_eq
    Entitlement.resolve_remote Redis.get Redis.set Local.set Entitlement.fetch_from_server
    Entitlement.read_reply add_prompt add_skills check_policies guard_input Guardrail.check_input
    Guardrail.check_output Guardrail.run_hook Guardrail.run_rules limit_rate Rates.check
    Rates.check_rules limit_cost Budgets.check Budgets.check_rules Budgets.touch complete
    send_request dispatch send Dispatcher.read_reply build_body allow allow_switch get_or_create
    store new_circuit_breaker summaries summaries_of guard_output settle Budgets.budget_key
    Budgets.current_period incr_by_float Budgets.rule_matches
is_failed = (_, refl)

failed_is_free_example :
    float_counters.read 9
      (codes "budget:day:daily:alice")
      (execute plain entitlements counters float_counters calendar parts
        (occasion 503)
        inquiry
        world).1.cost_counters
    ≡ float_counters.read 9 (codes "budget:day:daily:alice") world.cost_counters
failed_is_free_example =
    failed_is_free plain entitlements counters float_counters calendar parts (occasion 503) add-zero
      inquiry world is_failed.0 (codes "budget:day:daily:alice") is_failed.1

outward_needs_clearance_example :
    ((execute plain entitlements counters float_counters calendar parts
          (occasion 503)
          inquiry
          world).1.dispatcher
        ≡ world.dispatcher)
      × ((execute plain entitlements counters float_counters calendar parts
            (occasion 503)
            inquiry
            world).1.producer
          ≡ world.producer)
    ⊎ CameThrough plain entitlements counters float_counters calendar parts
        (occasion 503)
        inquiry
        world
outward_needs_clearance_example =
    outward_needs_clearance plain entitlements counters float_counters calendar parts (occasion 503)
      inquiry world
