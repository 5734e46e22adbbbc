-- ===== src/Daemon/Pipeline.antt =====
-- internal/daemon/pipeline.go: `Execute` and its helpers, over the components' models. One call of
-- `Execute` sees the configuration that each component holds at its step (`Parts`), and what the
-- outside does meanwhile (`Occasion`). The request is a value: what the code writes through `req`
-- is the changed copy that the later steps are given.
pub mod Steps
pub mod Outcomes
pub mod Charging
pub mod Refusals
use pangreksa_aigateway.Prelude.{
  ℕ, Bool, true, false, List, [], ◌∷◌, ◌++◌, ◌==◌, if◌then◌else◌, Option, none, some, Result, ok,
  err, map_err, length, ◌≡◌,
}
use pangreksa_aigateway.Prelude.Texts.{Text, codes}
use pangreksa_aigateway.Prelude.Int.{ℤ, pos}
use pangreksa_aigateway.Model.Float.{Float64}
use pangreksa_aigateway.Model.Format.{Format}
use pangreksa_aigateway.Model.Config.{SkillConfig}
use pangreksa_aigateway.Model.Entitlement.{UserEntitlement}
use pangreksa_aigateway.Model.Inquiry.{Message, InquiryRequest, TransactionEvent}
use pangreksa_aigateway.Cache.Local.{LocalCache}
use pangreksa_aigateway.Cache.Redis.{EntitlementStore}
use pangreksa_aigateway.Entitlement
use pangreksa_aigateway.Policy.RateLimit.Counters.{Counters}
use pangreksa_aigateway.Policy.RateLimit.Rules.{Engine as RateEngine}
use pangreksa_aigateway.Policy.RateLimit.Check.{Delivery as RateDelivery, check as check_rate}
use pangreksa_aigateway.Policy.Budget.Counters.{FloatCounters, Delivery}
use pangreksa_aigateway.Policy.Budget.Rules.{Engine as BudgetEngine}
use pangreksa_aigateway.Policy.Budget.Check.{Calendar, check as check_budget, record_cost}
use pangreksa_aigateway.Policy.Guardrail.{Engine as GuardrailEngine, check_input, check_output}
use pangreksa_aigateway.Registry.Prompt.{Registry as PromptRegistry, Glob}
use pangreksa_aigateway.Registry.Prompt
use pangreksa_aigateway.Registry.Skill.{SkillSummary, summaries}
use pangreksa_aigateway.Llm.Dispatcher.{Dispatcher, dispatch}
use pangreksa_aigateway.Llm.Dispatcher
use pangreksa_aigateway.Daemon.Producer.{Producer, publish_async}
use pangreksa_aigateway.Proxy.{step_error}

-- What `parseResponse` keeps of a response: the contents of the choices and the token counts.
pub record LlmResponse : Type 0 where
  pub choices : List Text
  pub prompt_tokens : ℤ
  pub completion_tokens : ℤ
  pub total_tokens : ℤ

unfoldable pub extract_content : LlmResponse → Text
extract_content r = elim r.choices [ [] ↦ [] | content ∷ _ ↦ content ]

unfoldable pub prepend_system_message : List Message → Text → List Message
prepend_system_message msgs content =
    record { role = codes "system"; content = content; name = [] } ∷ msgs

-- The loop of `buildSkillSummaryMessage`.
unfoldable pub summary_lines : List SkillSummary → Text
summary_lines [] = []
summary_lines (sk ∷ sks) =
    codes "- " ++ (sk.name ++ (codes ": " ++ (sk.description ++ (b'\n' ∷ summary_lines sks))))

unfoldable pub build_skill_summary_message : List SkillSummary → Text
build_skill_summary_message sks = codes "Available skills:\n" ++ summary_lines sks

module _ (fl : Float64) where
  -- The provider is an argument of the code's function, and is not read.
  unfoldable pub estimate_cost : ℤ → ℤ → fl.F
  estimate_cost input_tokens output_tokens =
      fl.mul
        (fl.div (fl.add (fl.of_int input_tokens) (fl.of_int output_tokens)) (fl.decimal 1000 0))
        (fl.decimal 2 3)

  pub record Parts : Type 0 where
    pub prompt_reg : PromptRegistry
    pub guardrail : GuardrailEngine
    pub ratelimit : RateEngine
    pub budget : BudgetEngine fl
    pub gateway_id : Text

  -- What the outside does during one call: times, ends of the context, faults of Redis, the replies
  -- of the Central Server and the provider, and the fields of an event that come from clocks and
  -- random numbers. `skills` is the range over the skill registry.
  pub record Occasion : Type 0 where
    pub resolve_at : ℕ
    pub resolving : Entitlement.Surroundings fl.F
    pub glob : Glob
    pub prompt_ends : Option Text
    pub prompt_order : List (Text × Text)
    pub skills_end : Option Text
    pub skills : List (Text × SkillConfig)
    pub input_ends : Option Text
    pub rate_at : ℕ
    pub rate_delivery : ℕ → RateDelivery
    pub budget_at : ℕ
    pub budget_delivery : ℕ → Delivery
    pub asked : ℕ
    pub ended : ℕ
    pub provider : Dispatcher.Surroundings fl.F
    pub parse_response : Text → LlmResponse
    pub output_ends : Option Text
    pub record_at : ℕ
    pub record_delivery : ℕ → Delivery
    pub event_id : Text
    pub latency_ms : ℕ
    pub created_at : Text

-- The result of `Summaries` in the messages: a failure is logged, and adds nothing.
abbrev pub add_summaries :
    {F : Type 0} → InquiryRequest F → Result (List SkillSummary) → InquiryRequest F
add_summaries req (err e) = req
add_summaries req (ok []) = req
add_summaries req (ok (sk ∷ sks)) = record req {
  messages = prepend_system_message req.messages (build_skill_summary_message (sk ∷ sks));
}

-- The request with the identifiers of the entitlement, which the code writes back.
abbrev pub identified : {F : Type 0} → UserEntitlement F → InquiryRequest F → InquiryRequest F
identified ent req = record req { user_id = ent.user_id; org_id = ent.org_id }

module _ {fl : Float64} where
  abbrev pub cost_of : Occasion fl → Text → fl.F
  cost_of occ body =
      estimate_cost fl (occ.parse_response body).prompt_tokens
        (occ.parse_response body).completion_tokens

  unfoldable pub event_of :
      Parts fl
      → Occasion fl
      → InquiryRequest fl.F
      → UserEntitlement fl.F
      → Text
      → ℤ
      → ℤ
      → fl.F
      → TransactionEvent fl.F
  event_of parts occ req ent status input_tokens output_tokens cost_usd = record {
    event_id = occ.event_id;
    request_id = req.request_id;
    gateway_id = parts.gateway_id;
    org_id = ent.org_id;
    user_id = ent.user_id;
    provider = req.provider;
    model = req.model;
    status = status;
    latency_ms = occ.latency_ms;
    ttft_ms = 0;
    input_tokens = input_tokens;
    output_tokens = output_tokens;
    cost_usd = cost_usd;
    cache_status = codes "none";
    prompt_fqn = req.prompt_fqn;
    skills_used = [];
    mcps_called = [];
    guardrails_hit = [];
    metadata = req.metadata;
    created_at = occ.created_at;
  }

module _ {fl : Float64} (tiers : EntitlementStore fl.F) (rates : Counters)
    (costs : FloatCounters fl) where
  -- What a call of `Execute` reads and changes.
  pub record World : Type 0 where
    pub l1 : LocalCache fl.F
    pub l2 : tiers.Store
    pub rate_counters : rates.Store
    pub cost_counters : costs.Store
    pub dispatcher : Dispatcher
    pub producer : Producer fl.F

  -- What the steps after the resolution of the entitlement read and change.
  pub record Shared : Type 0 where
    pub rate_counters : rates.Store
    pub cost_counters : costs.Store
    pub dispatcher : Dispatcher
    pub producer : Producer fl.F

  abbrev pub shared : World → Shared
  shared w = record {
    rate_counters = w.rate_counters;
    cost_counters = w.cost_counters;
    dispatcher = w.dispatcher;
    producer = w.producer;
  }
