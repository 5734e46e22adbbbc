-- ===== src/Daemon/Pipeline/Steps.antt =====
-- pipeline.go: the steps of `Execute`, each an action on the world, in the order of the code.
use pangreksa_aigateway.Prelude.{◌==◌, if◌then◌else◌, ok, err, map_err, length}
use pangreksa_aigateway.Prelude.Texts.{Text, codes}
use pangreksa_aigateway.Prelude.Int.{ℤ, pos}
use pangreksa_aigateway.Prelude.Actions.{Action, ◌>>=◌, ◌>>◌, pure, from_result}
use pangreksa_aigateway.Model.Float.{Float64}
use pangreksa_aigateway.Model.Format.{Format}
use pangreksa_aigateway.Model.Entitlement.{UserEntitlement}
use pangreksa_aigateway.Model.Inquiry.{InquiryRequest}
use pangreksa_aigateway.Cache.Redis.{EntitlementStore}
use pangreksa_aigateway.Entitlement
use pangreksa_aigateway.Policy.RateLimit.Counters.{Counters}
use pangreksa_aigateway.Policy.RateLimit.Check.{check as check_rate}
use pangreksa_aigateway.Policy.Budget.Counters.{FloatCounters}
use pangreksa_aigateway.Policy.Budget.Check.{Calendar, check as check_budget, record_cost}
use pangreksa_aigateway.Policy.Guardrail.{check_input, check_output}
use pangreksa_aigateway.Registry.Prompt
use pangreksa_aigateway.Registry.Skill.{summaries}
use pangreksa_aigateway.Llm.Dispatcher.{dispatch}
use pangreksa_aigateway.Daemon.Producer.{publish_async}
use pangreksa_aigateway.Proxy.{step_error}
use pangreksa_aigateway.Daemon.Pipeline.{
  extract_content, prepend_system_message, Parts, Occasion, add_summaries, identified, cost_of,
  event_of, World,
}

module _ {fl : Float64} (fmt : Format) (tiers : EntitlementStore fl.F) (rates : Counters)
    (costs : FloatCounters fl) (cal : Calendar) (parts : Parts fl) (occ : Occasion fl) where
  -- 1. The entitlement.
  unfoldable pub resolve_entitlement :
      InquiryRequest fl.F → Action (World tiers rates costs) (UserEntitlement fl.F)
  resolve_entitlement req w =
      let (result, l1, l2) =
        Entitlement.resolve fmt tiers occ.resolve_at occ.resolving req.user_id req.org_id w.l1
          w.l2 in
      (map_err (step_error (codes "entitlement")) result, record w { l1 = l1; l2 = l2 })

  -- 2. The prompt, if the request names one.
  unfoldable pub add_prompt :
      UserEntitlement fl.F
      → InquiryRequest fl.F
      → Action (World tiers rates costs) (InquiryRequest fl.F)
  add_prompt ent req =
      if length req.prompt_fqn == 0
      then pure req
      else from_result (
          map_err (step_error (codes "prompt registry")) (
            Prompt.resolve fmt occ.glob occ.prompt_ends parts.prompt_reg req.prompt_fqn
              req.variables occ.prompt_order ent))
        >>= λ content. pure (record req { messages = prepend_system_message req.messages content })

  -- 3. The summaries of the skills.
  unfoldable pub add_skills :
      UserEntitlement fl.F
      → InquiryRequest fl.F
      → Action (World tiers rates costs) (InquiryRequest fl.F)
  add_skills ent req =
      pure (add_summaries req (summaries occ.skills_end occ.skills ent.allowed_skills))

  -- 4. The guardrails of the input.
  unfoldable pub guard_input : InquiryRequest fl.F → Action (World tiers rates costs) (Unit {0})
  guard_input req = from_result (
      map_err (step_error (codes "guardrail input"))
        (check_input fmt occ.input_ends parts.guardrail req))

  -- 5. The rate limits.
  unfoldable pub limit_rate :
      UserEntitlement fl.F → InquiryRequest fl.F → Action (World tiers rates costs) (Unit {0})
  limit_rate ent req w =
      let (result, counters) =
        check_rate rates fmt occ.rate_at occ.rate_delivery parts.ratelimit req ent
          w.rate_counters in
      (map_err (step_error (codes "rate limit")) result, record w { rate_counters = counters })

  -- 6. The budgets, with the estimate 0.
  unfoldable pub limit_cost :
      UserEntitlement fl.F → InquiryRequest fl.F → Action (World tiers rates costs) (Unit {0})
  limit_cost ent req w =
      let (result, counters) =
        check_budget costs cal fmt occ.budget_at occ.budget_delivery parts.budget req ent fl.zero_f
          w.cost_counters in
      (map_err (step_error (codes "budget")) result, record w { cost_counters = counters })

  unfoldable pub publish_event :
      UserEntitlement fl.F
      → InquiryRequest fl.F
      → Text
      → ℤ
      → ℤ
      → fl.F
      → World tiers rates costs
      → World tiers rates costs
  publish_event ent req status input_tokens output_tokens cost_usd w = record w {
    producer =
        publish_async (event_of parts occ req ent status input_tokens output_tokens cost_usd)
          w.producer;
  }

  -- 7. The dispatch; a failure is published.
  unfoldable pub send_request :
      UserEntitlement fl.F → InquiryRequest fl.F → Action (World tiers rates costs) Text
  send_request ent req w =
      let (result, dispatcher) = dispatch fmt occ.asked occ.ended occ.provider w.dispatcher req in
      let w' : World tiers rates costs = record w { dispatcher = dispatcher } in
      elim result [
        | ok body ↦ (ok body, w')
        | err e ↦ (
          err (step_error (codes "dispatch") e),
          publish_event ent req (codes "error") (pos 0) (pos 0) fl.zero_f w',
        )
      ]

  -- 8. The guardrails of the output.
  unfoldable pub guard_output : Text → Action (World tiers rates costs) (Unit {0})
  guard_output body =
      from_result (
        map_err (step_error (codes "guardrail output")) (
          check_output fmt occ.output_ends parts.guardrail
            (extract_content (occ.parse_response body))))
      >>= λ _. pure tt

  -- 9. and 10. The cost is recorded, and the event published.
  unfoldable pub settle :
      UserEntitlement fl.F → InquiryRequest fl.F → Text → Action (World tiers rates costs) Text
  settle ent req body w =
      let r = occ.parse_response body in
      let charged : World tiers rates costs = record w {
        cost_counters =
            record_cost costs cal occ.record_at occ.record_delivery parts.budget req ent
              (cost_of occ body) w.cost_counters;
      } in
      (
        ok body,
        publish_event ent req (codes "success") r.prompt_tokens r.completion_tokens
            (cost_of occ body) charged,
      )

  -- Steps 4 to 6.
  unfoldable pub check_policies :
      UserEntitlement fl.F → InquiryRequest fl.F → Action (World tiers rates costs) (Unit {0})
  check_policies ent req = do guard_input req; limit_rate ent req; limit_cost ent req

  -- Steps 7 to 10.
  unfoldable pub complete :
      UserEntitlement fl.F → InquiryRequest fl.F → Action (World tiers rates costs) Text
  complete ent req = do body ← send_request ent req; guard_output body; settle ent req body

  -- Steps 1 to 3: the entitlement, and the request as the later steps see it.
  unfoldable pub prepare :
      InquiryRequest fl.F
      → Action (World tiers rates costs) (UserEntitlement fl.F × InquiryRequest fl.F)
  prepare req = do
    ent ← resolve_entitlement req
    prompted ← add_prompt ent (identified ent req)
    ready ← add_skills ent prompted
    pure (ent, ready)

  unfoldable pub execute : InquiryRequest fl.F → Action (World tiers rates costs) Text
  execute req = do (ent, ready) ← prepare req; check_policies ent ready; complete ent ready
