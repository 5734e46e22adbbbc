-- ===== src/Daemon/Pipeline/Outcomes.antt =====
-- pipeline.go: what the policy steps and the completing steps of a successful call establish.
use pangreksa_aigateway.Prelude.{◌≡◌, ap, ◌∙◌, ok, map_err, arith, inl, inr, Result-cases}
use mathlib.Core.Path.{subst}
use pangreksa_aigateway.Proxy.{step_error}
use pangreksa_aigateway.Prelude.Texts.{Text, codes}
use pangreksa_aigateway.Prelude.Actions.{◌>>◌, pure, from_result, map_err-ok, ok_injective, bind-ok}
use pangreksa_aigateway.Model.Float.{Float64}
use pangreksa_aigateway.Model.Format.{Format}
use pangreksa_aigateway.Model.Entitlement.{UserEntitlement}
use pangreksa_aigateway.Model.Inquiry.{InquiryRequest}
use pangreksa_aigateway.Cache.Redis.{EntitlementStore}
use pangreksa_aigateway.Policy.RateLimit.Counters.{Counters}
use pangreksa_aigateway.Policy.RateLimit.Check.{check as check_rate}
use pangreksa_aigateway.Policy.Budget.Counters.{FloatCounters}
use pangreksa_aigateway.Policy.Budget.Check.{Calendar, check as check_budget, record_cost}
use pangreksa_aigateway.Policy.Guardrail.{check_input, check_output}
use pangreksa_aigateway.Llm.Dispatcher.{dispatch}
use pangreksa_aigateway.Daemon.Producer.{publish_async}
use pangreksa_aigateway.Daemon.Pipeline.{extract_content, Parts, Occasion, cost_of, event_of, World}
use pangreksa_aigateway.Daemon.Pipeline.Steps.{
  guard_input, limit_rate, limit_cost, publish_event, send_request, guard_output, settle,
  check_policies, complete,
}

module _ {fl : Float64} (fmt : Format) (tiers : EntitlementStore fl.F) (rates : Counters)
    (costs : FloatCounters fl) (cal : Calendar) (parts : Parts fl) (occ : Occasion fl) where
  -- Whether the three policy checks let a request through, on these counters.
  pub record Cleared (ent : UserEntitlement fl.F) (req : InquiryRequest fl.F) (calls : rates.Store)
      (spent : costs.Store) : Type 0 where
    pub input_passes : check_input fmt occ.input_ends parts.guardrail req ≡ ok tt
    pub rate_passes :
        (check_rate rates fmt occ.rate_at occ.rate_delivery parts.ratelimit req ent calls).0 ≡ ok tt
    pub budget_passes :
        (check_budget costs cal fmt occ.budget_at occ.budget_delivery parts.budget req ent fl.zero_f
          spent).0
        ≡ ok tt

  pub check_policies-Cleared :
      (ent : UserEntitlement fl.F) (req : InquiryRequest fl.F) (w : World tiers rates costs)
      → (check_policies fmt tiers rates costs cal parts occ ent req w).0 ≡ ok tt
      → Cleared ent req w.rate_counters w.cost_counters
        × ((check_policies fmt tiers rates costs cal parts occ ent req w).1.cost_counters
            ≡ (check_budget costs cal fmt occ.budget_at occ.budget_delivery parts.budget req ent
                fl.zero_f w.cost_counters).1)
        × ((check_policies fmt tiers rates costs cal parts occ ent req w).1.producer ≡ w.producer)
        × ((check_policies fmt tiers rates costs cal parts occ ent req w).1.dispatcher
            ≡ w.dispatcher)
  unfolding check_policies guard_input limit_rate limit_cost
  check_policies-Cleared ent req w h =
      let (_, guarded, rest, e) =
        bind-ok (guard_input fmt tiers rates costs cal parts occ req)
          (λ _.
            limit_rate fmt tiers rates costs cal parts occ ent req
            >> limit_cost fmt tiers rates costs cal parts occ ent req)
          w tt h in
      let (_, limited, last, g) =
        bind-ok (limit_rate fmt tiers rates costs cal parts occ ent req)
          (λ _. limit_cost fmt tiers rates costs cal parts occ ent req) w tt rest in
      let final = e ∙ g in
      (
        record {
          input_passes = map_err-ok _ _ tt guarded;
          rate_passes = map_err-ok _ _ tt limited;
          budget_passes = map_err-ok _ _ tt last;
        },
        ap (λ v. v.cost_counters) final,
        ap (λ v. v.producer) final,
        ap (λ v. v.dispatcher) final,
      )

  -- What a completed request leaves: the provider's response, the cost at the budgets' counters, and
  -- one event.
  pub record Settled (ent : UserEntitlement fl.F) (req : InquiryRequest fl.F)
      (w w' : World tiers rates costs) (body : Text) : Type 0 where
    pub answered : (dispatch fmt occ.asked occ.ended occ.provider w.dispatcher req).0 ≡ ok body
    pub checked : Text
    pub output_passes :
        check_output fmt occ.output_ends parts.guardrail (extract_content (occ.parse_response body))
        ≡ ok checked
    pub recorded :
        w'.cost_counters
        ≡ record_cost costs cal occ.record_at occ.record_delivery parts.budget req ent
            (cost_of occ body)
            w.cost_counters
    pub published :
        w'.producer
        ≡ publish_async
            (event_of parts occ req ent
              (codes "success")
              (occ.parse_response body).prompt_tokens
              (occ.parse_response body).completion_tokens
              (cost_of occ body))
            w.producer

  send_request-ok :
      (ent : UserEntitlement fl.F) (req : InquiryRequest fl.F) (w : World tiers rates costs)
      (body : Text)
      → (send_request fmt tiers rates costs cal parts occ ent req w).0 ≡ ok body
      → ((dispatch fmt occ.asked occ.ended occ.provider w.dispatcher req).0 ≡ ok body)
        × ((send_request fmt tiers rates costs cal parts occ ent req w).1 ≡ record w {
          dispatcher = (dispatch fmt occ.asked occ.ended occ.provider w.dispatcher req).1;
        })
  unfolding send_request
  send_request-ok ent req w body h =
      elim (Result-cases (dispatch fmt occ.asked occ.ended occ.provider w.dispatcher req).0) [
        | inl (text, e) ↦ (ground (arith, e), rw (e, send_request))
        | inr (m, e) ↦ ground (arith, e)
      ]

  guard_output-ok :
      (body : Text) (w : World tiers rates costs)
      → (guard_output fmt tiers rates costs cal parts occ body w).0 ≡ ok tt
      → ((checked : Text) × (check_output fmt occ.output_ends parts.guardrail
              (extract_content (occ.parse_response body))
            ≡ ok checked))
        × ((guard_output fmt tiers rates costs cal parts occ body w).1 ≡ w)
  unfolding guard_output
  guard_output-ok body w h =
      let (checked, passes, _, same) =
        bind-ok
          (from_result (
            map_err (step_error (codes "guardrail output")) (
              check_output fmt occ.output_ends parts.guardrail
                (extract_content (occ.parse_response body)))))
          (λ _. pure tt) w tt h in
      ((checked, map_err-ok _ _ checked passes), same)

  pub complete-Settled :
      (ent : UserEntitlement fl.F) (req : InquiryRequest fl.F) (w : World tiers rates costs)
      (body : Text)
      → (complete fmt tiers rates costs cal parts occ ent req w).0 ≡ ok body
      → Settled ent req w (complete fmt tiers rates costs cal parts occ ent req w).1 body
  unfolding complete settle publish_event
  complete-Settled ent req w body h =
      let (text, sent, rest, e) =
        bind-ok (send_request fmt tiers rates costs cal parts occ ent req)
          (λ t.
            guard_output fmt tiers rates costs cal parts occ t
            >> settle fmt tiers rates costs cal parts occ ent req t)
          w body h in
      let (_, guarded, last, g) =
        bind-ok (guard_output fmt tiers rates costs cal parts occ text)
          (λ _. settle fmt tiers rates costs cal parts occ ent req text) _ body rest in
      let (answered, sent_world) = send_request-ok ent req w text sent in
      let ((checked, passes), same_world) = guard_output-ok text _ guarded in
      let final =
        e
        ∙ g
        ∙ ap (λ v. (settle fmt tiers rates costs cal parts occ ent req text v).1)
            (same_world ∙ sent_world) in
      subst (Settled ent req w (complete fmt tiers rates costs cal parts occ ent req w).1)
        (ok_injective text body last)
        (record {
          answered = answered;
          checked = checked;
          output_passes = passes;
          recorded = ap (λ v. v.cost_counters) final;
          published = ap (λ v. v.producer) final;
        })
