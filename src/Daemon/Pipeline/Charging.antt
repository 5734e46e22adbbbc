-- ===== src/Daemon/Pipeline/Charging.antt =====
-- pipeline.go: what a request costs, and what it takes to get through.
use pangreksa_aigateway.Prelude.{◌≡◌, refl, ap, ◌∙◌, ◌==◌, ok, length, inl, inr, Bool-cases}
use mathlib.Core.Path.{subst}
use pangreksa_aigateway.Prelude.Texts.{Text, codes}
use pangreksa_aigateway.Prelude.Actions.{◌>>◌, pure, from_result, Keeps, bind-ok, bind-Keeps}
use pangreksa_aigateway.Model.Float.{Float64}
use pangreksa_aigateway.Model.Format.{Format}
use pangreksa_aigateway.Model.Entitlement.{UserEntitlement}
use pangreksa_aigateway.Model.Inquiry.{InquiryRequest, TransactionEvent}
use pangreksa_aigateway.Cache.Redis.{EntitlementStore}
use pangreksa_aigateway.Policy.RateLimit.Counters.{Counters}
use pangreksa_aigateway.Policy.Budget.Counters.{FloatCounters}
use pangreksa_aigateway.Policy.Budget.Check.{Calendar, check as check_budget}
use pangreksa_aigateway.Policy.Budget.Charges.{charged, read-record_cost}
use pangreksa_aigateway.Llm.Dispatcher.{dispatch}
use pangreksa_aigateway.Daemon.Producer.{publish_async}
use pangreksa_aigateway.Policy.Guardrail.{check_output}
use pangreksa_aigateway.Daemon.Pipeline.{
  extract_content, Parts, Occasion, identified, cost_of, event_of, World, Shared, shared,
}
use pangreksa_aigateway.Daemon.Pipeline.Steps.{
  resolve_entitlement, add_prompt, add_skills, check_policies, complete, prepare, execute,
}
use pangreksa_aigateway.Daemon.Pipeline.Outcomes.{Cleared, check_policies-Cleared, complete-Settled}

module _ {fl : Float64} (fmt : Format) (tiers : EntitlementStore fl.F) (rates : Counters)
    (costs : FloatCounters fl) (cal : Calendar) (parts : Parts fl) (occ : Occasion fl) where
  add_prompt-Keeps :
      (ent : UserEntitlement fl.F) (req : InquiryRequest fl.F)
      → Keeps (shared tiers rates costs) (add_prompt fmt tiers rates costs cal parts occ ent req)
  unfolding add_prompt
  add_prompt-Keeps ent req w = elim (Bool-cases (length req.prompt_fqn == 0)) [
    | inl none_named ↦ rw (none_named, add_prompt)
    | inr named ↦
        rw (named, add_prompt)
          (bind-Keeps (shared tiers rates costs) (from_result _) (λ content. pure _) (λ v. refl)
            (λ a v. refl) w)
  ]

  -- The first three steps only touch the caches of entitlements.
  pub prepare-Keeps :
      (req : InquiryRequest fl.F)
      → Keeps (shared tiers rates costs) (prepare fmt tiers rates costs cal parts occ req)
  unfolding prepare resolve_entitlement add_skills
  prepare-Keeps req =
      bind-Keeps (shared tiers rates costs)
        (resolve_entitlement fmt tiers rates costs cal parts occ req) _ (λ w. refl)
        (λ ent.
          bind-Keeps (shared tiers rates costs)
            (add_prompt fmt tiers rates costs cal parts occ ent (identified ent req)) _
            (add_prompt-Keeps ent _) (λ prompted w. refl))

  -- A request that was answered: its entitlement and its final form, the checks that it passed, and
  -- what was charged and published for it.
  pub record Charged (req : InquiryRequest fl.F) (w w' : World tiers rates costs) (body : Text)
      : Type 0 where
    pub ent : UserEntitlement fl.F
    pub ready : InquiryRequest fl.F
    pub prepared : (prepare fmt tiers rates costs cal parts occ req w).0 ≡ ok (ent, ready)
    pub cleared :
        Cleared fmt tiers rates costs cal parts occ ent ready w.rate_counters w.cost_counters
    pub answered : (dispatch fmt occ.asked occ.ended occ.provider w.dispatcher ready).0 ≡ ok body
    pub checked : Text
    pub output_passes :
        check_output fmt occ.output_ends parts.guardrail (extract_content (occ.parse_response body))
        ≡ ok checked
    pub event : TransactionEvent fl.F
    pub success : event.status ≡ codes "success"
    pub published : w'.producer ≡ publish_async event w.producer
    pub charges :
        (j : Text)
        → costs.read occ.record_at j w'.cost_counters
          ≡ charged costs cal occ.record_at occ.record_delivery 0 parts.budget.rules ent
              event.cost_usd j
              (costs.read occ.record_at j
                (check_budget costs cal fmt occ.budget_at occ.budget_delivery parts.budget ready ent
                  fl.zero_f w.cost_counters).1)

  -- If `Execute` returns a response, then the entitlement was resolved, the guardrails of the input,
  -- the rate limits and the budgets let the final request through, each on the counters of before
  -- the call, the dispatcher returned this response, and the guardrails of the output let its content
  -- through. One event is handed to the producer, with
  -- status success; and the cost that it states is the amount charged: every budget counter then
  -- reads as after the budget check, with this cost added once for each rule of its key whose
  -- command reaches Redis.
  pub execute-Charged :
      (req : InquiryRequest fl.F) (w : World tiers rates costs) (body : Text)
      → (execute fmt tiers rates costs cal parts occ req w).0 ≡ ok body
      → Charged req w (execute fmt tiers rates costs cal parts occ req w).1 body
  unfolding execute event_of
  execute-Charged req w body h =
      let ((ent, ready), prepared, rest, e) =
        bind-ok (prepare fmt tiers rates costs cal parts occ req)
          (λ p.
            check_policies fmt tiers rates costs cal parts occ p.0 p.1
            >> complete fmt tiers rates costs cal parts occ p.0 p.1)
          w body h in
      let w₁ = (prepare fmt tiers rates costs cal parts occ req w).1 in
      let (_, checked, last, g) =
        bind-ok (check_policies fmt tiers rates costs cal parts occ ent ready)
          (λ _. complete fmt tiers rates costs cal parts occ ent ready) w₁ body rest in
      let kept = prepare-Keeps req w in
      let (cleared, costs_then, producer_then, dispatcher_then) =
        check_policies-Cleared fmt tiers rates costs cal parts occ ent ready w₁ checked in
      let settled = complete-Settled fmt tiers rates costs cal parts occ ent ready _ body last in
      let event =
        event_of parts occ ready ent (codes "success") (occ.parse_response body).prompt_tokens
          (occ.parse_response body).completion_tokens (cost_of occ body) in
      record {
        ent = ent;
        ready = ready;
        prepared = prepared;
        cleared =
            subst
              (λ (v : Shared tiers rates costs).
                Cleared fmt tiers rates costs cal parts occ ent ready v.rate_counters
                  v.cost_counters)
              kept cleared;
        answered =
            subst (λ d. (dispatch fmt occ.asked occ.ended occ.provider d ready).0 ≡ ok body)
              (dispatcher_then ∙ ap (λ (v : Shared tiers rates costs). v.dispatcher) kept)
              settled.answered;
        checked = settled.checked;
        output_passes = settled.output_passes;
        event = event;
        success = refl;
        published =
            ap (λ v. v.producer) (e ∙ g)
            ∙ settled.published
            ∙ ap (publish_async event)
                (producer_then ∙ ap (λ (v : Shared tiers rates costs). v.producer) kept);
        charges = λ j.
            ap (λ v. costs.read occ.record_at j v.cost_counters) (e ∙ g)
            ∙ ap (costs.read occ.record_at j) settled.recorded
            ∙ read-record_cost costs cal occ.record_at occ.record_delivery parts.budget ready ent
                (cost_of occ body) j _
            ∙ ap
                (λ c.
                  charged costs cal occ.record_at occ.record_delivery 0 parts.budget.rules ent
                    (cost_of occ body) j (costs.read occ.record_at j c))
                (costs_then
                  ∙ ap
                      (λ (v : Shared tiers rates costs).
                        (check_budget costs cal fmt occ.budget_at occ.budget_delivery parts.budget
                          ready ent fl.zero_f v.cost_counters).1)
                      kept);
      }
