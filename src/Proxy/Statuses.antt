-- ===== src/Proxy/Statuses.antt =====
-- proxy.go: the status that a refused request gets.
use pangreksa_aigateway.Prelude.{◌≡◌, Bool, true, ◌||◌, ◌++◌, if◌then◌else◌, arith}
use pangreksa_aigateway.Prelude.Texts.{
  Text, codes, contains, contains_here, contains_later, has_prefix-append,
}
use pangreksa_aigateway.Model.Format.{Format}
use pangreksa_aigateway.Model.Float.{Float64}
use pangreksa_aigateway.Model.Policy.{GuardrailConfig}
use pangreksa_aigateway.Policy.RateLimit.Check.{exceeded as rate_exceeded}
use pangreksa_aigateway.Policy.RateLimit.Rules.{ParsedRule as RateRule}
use pangreksa_aigateway.Policy.Budget.Check.{exceeded as budget_exceeded}
use pangreksa_aigateway.Policy.Budget.Rules.{ParsedRule as SpendingRule}
use pangreksa_aigateway.Policy.Guardrail.{blocked}
use pangreksa_aigateway.Proxy.{step_error, map_pipeline_error}

contains_middle : (pre sub rest : Text) → contains (pre ++ (sub ++ rest)) sub ≡ true
contains_middle pre sub rest =
    contains_later pre (sub ++ rest) sub
      (contains_here (sub ++ rest) sub (has_prefix-append sub rest))

-- The words of a rate limit or a budget in a message.
abbrev pub is_limit : Text → Bool
is_limit msg =
    contains msg (codes "rate limit")
    || contains msg (codes "too many requests")
    || contains msg (codes "budget exceeded")
    || contains msg (codes "budget limit")

limit_status :
    (fmt : Format) (msg : Text) → is_limit msg ≡ true → (map_pipeline_error fmt msg).0 ≡ 429
unfolding map_pipeline_error
limit_status fmt msg h = ground arith

blocked_status :
    (fmt : Format) (msg : Text)
    → contains msg (codes "blocked") ≡ true
    → (map_pipeline_error fmt msg).0 ≡ (if is_limit msg then 429 else 403)
unfolding map_pipeline_error
blocked_status fmt msg h = ground arith

rate_is_limit : (msg : Text) → contains msg (codes "rate limit") ≡ true → is_limit msg ≡ true
rate_is_limit msg h = ground arith

budget_is_limit : (msg : Text) → contains msg (codes "budget limit") ≡ true → is_limit msg ≡ true
budget_is_limit msg h = ground arith

-- A request that a rate limit or a budget refuses gets the status 429, whatever the rule is called
-- and the amounts are. One that a guardrail blocks at its input gets 403, unless the texts of its
-- rule and hook bring the words of a limit into the message: then it gets 429 too.
pub refusal_statuses :
    (fl : Float64) (fmt : Format) (rate : RateRule) (spending : SpendingRule fl) (current : fl.F)
    (guard : GuardrailConfig) (hook : Text)
    → let denial = step_error (codes "guardrail input") (blocked fmt guard hook) in
      ((map_pipeline_error fmt (step_error (codes "rate limit") (rate_exceeded fmt rate))).0 ≡ 429)
      × ((map_pipeline_error fmt
            (step_error (codes "budget") (budget_exceeded fmt spending current))).0
          ≡ 429)
      × ((map_pipeline_error fmt denial).0 ≡ (if is_limit denial then 429 else 403))
unfolding budget_exceeded blocked
refusal_statuses fl fmt rate spending current guard hook =
    let denial = step_error (codes "guardrail input") (blocked fmt guard hook) in
    let refusal = step_error (codes "budget") (budget_exceeded fmt spending current) in
    let limited =
      contains_middle (codes "pipeline.Execute: ") (codes "rate limit")
        (codes ": " ++ rate_exceeded fmt rate) in
    let spent : contains refusal (codes "budget limit") ≡ true =
      contains_middle (codes "pipeline.Execute: budget: ") (codes "budget limit") _ in
    let denied : contains denial (codes "blocked") ≡ true =
      contains_middle (codes "pipeline.Execute: guardrail input: request ") (codes "blocked") _ in
    (
      limit_status fmt _ (rate_is_limit _ limited),
      limit_status fmt refusal (budget_is_limit refusal spent),
      blocked_status fmt denial denied,
    )
