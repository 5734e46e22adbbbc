-- ===== src/Tests/Budgets.antt =====
-- Runs of the budget engine, with amounts in whole units.
use pangreksa_aigateway.Prelude.{ℕ, ◌≡◌, refl, true, [], ◌∷◌, ◌==◌, if◌then◌else◌}
use pangreksa_aigateway.Prelude.Texts.{Text, codes}
use pangreksa_aigateway.Prelude.Int.{pos}
use pangreksa_aigateway.Policy.Budget.Counters.{Delivery, replied, never_ran}
use pangreksa_aigateway.Policy.Budget.Rules.{ParsedRule, Engine}
use pangreksa_aigateway.Policy.Budget.Check.{
  Calendar, budget_key, touch, first_verdict, check, record_cost, check_first,
}
use pangreksa_aigateway.Policy.Budget.Charges.{charged, read-record_cost}
use pangreksa_aigateway.Tests.Instances.{plain, units, float_counters, no_counters, inquiry, alice}

abbrev rule_named : Text → ℕ → ParsedRule units
rule_named name limit = record {
  raw = record { id = name; priority = pos 1; rule_yaml = [] };
  limit_usd = limit;
  period = codes "daily";
  entity_type = codes "user";
}

abbrev pair : Engine units
pair = record { rules = rule_named (codes "small") 5 ∷ rule_named (codes "large") 50 ∷ [] }

abbrev calendar : Calendar
calendar = record { day_text = λ now. codes "2026-01-31"; month_text = λ now. codes "2026-01" }

-- The call for the second rule does not reach Redis.
abbrev second_lost : ℕ → Delivery
second_lost i = if i == 0 then replied true else never_ran

check_first_example :
    (check float_counters calendar plain 7 second_lost pair inquiry alice 6 no_counters).0
    ≡ first_verdict plain
        (rule_named (codes "small") 5)
        6
        (touch float_counters calendar 7
          (replied true)
          (rule_named (codes "small") 5)
          alice
          0
          no_counters).0
check_first_example =
    check_first float_counters calendar plain 7 second_lost pair (rule_named (codes "small") 5)
      (rule_named (codes "large") 50 ∷ []) inquiry alice 6 no_counters refl

abbrev small_key : Text
small_key = budget_key calendar 7 (rule_named (codes "small") 5) alice

read-record_cost_example :
    float_counters.read 7 small_key
      (record_cost float_counters calendar 7 second_lost pair inquiry alice 6 no_counters)
    ≡ charged float_counters calendar 7 second_lost 0 pair.rules alice 6 small_key 0
read-record_cost_example =
    read-record_cost float_counters calendar 7 second_lost pair inquiry alice 6 small_key
      no_counters
