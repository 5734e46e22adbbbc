-- ===== src/Tests/RateLimiting.antt =====
-- Runs of the sliding-window script, and of the engine over it.
use pangreksa_aigateway.Prelude.{
  ℕ, ◌≤◌, ◌≡◌, refl, List, [], ◌∷◌, arith, if◌then◌else◌, ok, err, ◌==◌,
}
use pangreksa_aigateway.Prelude.Texts.{Text, codes}
use pangreksa_aigateway.Prelude.Int.{pos, negsuc}
use pangreksa_aigateway.Model.Policy.{RateLimitRule}
use pangreksa_aigateway.Policy.RateLimit.Script.{ScriptCall, sliding_window, replies}
use pangreksa_aigateway.Policy.RateLimit.Script.Refines.{window_replies, replies-window_replies}
use pangreksa_aigateway.Policy.RateLimit.Script.Bound.{accepted, accepted-le-limit}
use pangreksa_aigateway.Policy.RateLimit.Rules.{ParsedRule, Engine, update}
use pangreksa_aigateway.Policy.RateLimit.Check.{
  Delivery, answered, reply_lost, rate_limit_key_prefix, exceeded, after_failures, check,
  check_controls,
}
use pangreksa_aigateway.Tests.Instances.{plain, counters, no_counters, inquiry, alice}

abbrev call_at : ℕ → Text → ScriptCall
call_at t p = record { now = t; key_prefix = p; limit = pos 2 }

-- Two daemons, two prefixes, a limit of two a minute.
abbrev traffic : List ScriptCall
traffic =
    call_at 1000 (codes "ratelimit:r:alice")
    ∷ call_at 1003 (codes "ratelimit:r:bob")
    ∷ call_at 1004 (codes "ratelimit:r:alice")
    ∷ call_at 1030 (codes "ratelimit:r:alice")
    ∷ call_at 1070 (codes "ratelimit:r:alice")
    ∷ []

replies-window_replies_example : replies counters no_counters traffic ≡ window_replies [] traffic
replies-window_replies_example =
    replies-window_replies counters 1000 1070 no_counters traffic (λ u k. refl) (omega arith)
      (omega arith) (ground arith)

accepted-le-limit_example :
    accepted (codes "ratelimit:r:alice") 1000 traffic (replies counters no_counters traffic) ≤ 2
accepted-le-limit_example =
    accepted-le-limit counters (codes "ratelimit:r:alice") 1000 2 1000 1070 no_counters traffic
      (λ u k. refl) (omega arith) (omega arith) (ground arith) (ground arith)

abbrev rate_rules : List RateLimitRule
rate_rules =
    record {
      id = codes "slow";
      priority = pos 9;
      rule_yaml = codes "requests_per_minute: 5\nentity: org";
    }
    ∷ record { id = codes "bad"; priority = pos 0; rule_yaml = codes "requests_per_minute: 0" }
    ∷ record { id = codes "fast"; priority = negsuc 0; rule_yaml = codes "requests_per_minute: 1" }
    ∷ []

abbrev empty_engine : Engine
empty_engine = record { rules = [] }

abbrev engine : Engine
engine = update empty_engine rate_rules

abbrev one : ParsedRule
one = record {
  raw = record { id = codes "one"; priority = pos 1; rule_yaml = [] };
  limit_rpm = pos 1;
  entity_type = codes "user";
}

abbrev two : ParsedRule
two = record {
  raw = record { id = codes "two"; priority = pos 2; rule_yaml = [] };
  limit_rpm = pos 2;
  entity_type = codes "org";
}

abbrev pair : Engine
pair = record { rules = one ∷ two ∷ [] }

-- The first call loses its reply, the others are answered.
abbrev flaky : ℕ → Delivery
flaky i = if i == 0 then reply_lost else answered

check_controls_example : check counters plain 1000 flaky pair inquiry alice no_counters ≡ (
    let (reply, s') =
      sliding_window counters 1000
        (rate_limit_key_prefix two inquiry alice)
        (pos 2)
        (after_failures counters 1000 flaky 0 (one ∷ []) inquiry alice no_counters) in
    (if reply == 0 then err (exceeded plain two) else ok tt, s'))
check_controls_example =
    check_controls counters plain 1000 flaky pair (one ∷ []) [] two inquiry alice no_counters refl
      ((λ e. cc e), tt) refl
