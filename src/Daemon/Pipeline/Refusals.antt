-- ===== src/Daemon/Pipeline/Refusals.antt =====
-- pipeline.go: what a request that is not answered leaves behind.
use pangreksa_aigateway.Prelude.{◌≡◌, refl, ap, ◌∙◌, ◌⊎◌, ok, err, inl, inr, Result-cases}
use mathlib.Core.Path.{subst}
use pangreksa_aigateway.Prelude.Texts.{Text}
use pangreksa_aigateway.Prelude.Actions.{
  ◌>>◌, pure, from_result, Keeps, KeepsOnError, bind-err, bind-after, bind-Keeps, bind-KeepsOnError,
}
use pangreksa_aigateway.Model.Float.{Float64}
use pangreksa_aigateway.Model.Format.{Format}
use pangreksa_aigateway.Model.Entitlement.{UserEntitlement}
use pangreksa_aigateway.Model.Inquiry.{InquiryRequest}
use pangreksa_aigateway.Cache.Redis.{EntitlementStore}
use pangreksa_aigateway.Policy.RateLimit.Counters.{Counters}
use pangreksa_aigateway.Policy.Budget.Counters.{FloatCounters}
use pangreksa_aigateway.Policy.Budget.Check.{Calendar}
use pangreksa_aigateway.Policy.Budget.Charges.{read-check}
use pangreksa_aigateway.Llm.Dispatcher.{Dispatcher, dispatch}
use pangreksa_aigateway.Daemon.Producer.{Producer}
use pangreksa_aigateway.Daemon.Pipeline.{Parts, Occasion, World, Shared}
use pangreksa_aigateway.Daemon.Pipeline.Steps.{
  guard_input, limit_rate, limit_cost, publish_event, send_request, guard_output, settle,
  check_policies, complete, prepare, execute,
}
use pangreksa_aigateway.Daemon.Pipeline.Outcomes.{Cleared, check_policies-Cleared}
use pangreksa_aigateway.Daemon.Pipeline.Charging.{prepare-Keeps}

module _ {fl : Float64} (fmt : Format) (tiers : EntitlementStore fl.F) (rates : Counters)
    (costs : FloatCounters fl) (cal : Calendar) (parts : Parts fl) (occ : Occasion fl) where
  -- The value of a budget counter.
  abbrev spent : Text → World tiers rates costs → fl.F
  spent j w = costs.read occ.budget_at j w.cost_counters

  send_request-Keeps :
      (j : Text) (ent : UserEntitlement fl.F) (req : InquiryRequest fl.F)
      → Keeps (spent j) (send_request fmt tiers rates costs cal parts occ ent req)
  unfolding send_request publish_event
  send_request-Keeps j ent req w =
      elim (Result-cases (dispatch fmt occ.asked occ.ended occ.provider w.dispatcher req).0) [
        | inl (text, e) ↦ rw (e, send_request)
        | inr (m, e) ↦ rw (e, send_request)
      ]

  complete-KeepsOnError :
      (j : Text) (ent : UserEntitlement fl.F) (req : InquiryRequest fl.F)
      → KeepsOnError (spent j) (complete fmt tiers rates costs cal parts occ ent req)
  unfolding complete guard_output settle
  complete-KeepsOnError j ent req =
      bind-KeepsOnError (spent j) (send_request fmt tiers rates costs cal parts occ ent req) _
        (send_request-Keeps j ent req)
        (λ body.
          bind-KeepsOnError (spent j) (guard_output fmt tiers rates costs cal parts occ body) _
            (bind-Keeps (spent j) (from_result _) (λ _. pure tt) (λ w. refl) (λ _ w. refl))
            (λ _ w e h. cc h))

  check_policies-Keeps :
      ((x : fl.F) → fl.add x fl.zero_f ≡ x)
      → (j : Text) (ent : UserEntitlement fl.F) (req : InquiryRequest fl.F)
      → Keeps (spent j) (check_policies fmt tiers rates costs cal parts occ ent req)
  unfolding check_policies guard_input limit_rate limit_cost
  check_policies-Keeps add_zero j ent req =
      bind-Keeps (spent j) (guard_input fmt tiers rates costs cal parts occ req) _ (λ w. refl)
        (λ _.
          bind-Keeps (spent j) (limit_rate fmt tiers rates costs cal parts occ ent req) _
            (λ w. refl)
            (λ _ w.
              read-check costs cal add_zero fmt occ.budget_at occ.budget_delivery parts.budget req
                ent fl.zero_f j w.cost_counters))

  -- If `Execute` returns an error, on whatever path, every budget counter still has the value from
  -- before the call, provided that adding 0 to an amount does not change it.
  pub failed_is_free :
      ((x : fl.F) → fl.add x fl.zero_f ≡ x)
      → (req : InquiryRequest fl.F) (w : World tiers rates costs) (e j : Text)
      → (execute fmt tiers rates costs cal parts occ req w).0 ≡ err e
      → costs.read occ.budget_at j
          (execute fmt tiers rates costs cal parts occ req w).1.cost_counters
        ≡ costs.read occ.budget_at j w.cost_counters
  unfolding execute
  failed_is_free add_zero req w e j =
      bind-KeepsOnError (spent j) (prepare fmt tiers rates costs cal parts occ req) _
        (λ v.
          ap (λ (x : Shared tiers rates costs). costs.read occ.budget_at j x.cost_counters)
            (prepare-Keeps fmt tiers rates costs cal parts occ req v))
        (λ p.
          bind-KeepsOnError (spent j) (check_policies fmt tiers rates costs cal parts occ p.0 p.1) _
            (check_policies-Keeps add_zero j p.0 p.1) (λ _. complete-KeepsOnError j p.0 p.1))
        w e

  -- The providers' breakers and the queue of events.
  abbrev pub outward : World tiers rates costs → Dispatcher × Producer fl.F
  outward w = (w.dispatcher, w.producer)

  check_policies-outward :
      (ent : UserEntitlement fl.F) (req : InquiryRequest fl.F)
      → Keeps outward (check_policies fmt tiers rates costs cal parts occ ent req)
  unfolding check_policies guard_input limit_rate limit_cost
  check_policies-outward ent req =
      bind-Keeps outward (guard_input fmt tiers rates costs cal parts occ req) _ (λ v. refl)
        (λ _.
          bind-Keeps outward (limit_rate fmt tiers rates costs cal parts occ ent req) _ (λ v. refl)
            (λ _ v. refl))

  -- What `Execute` has found before it turns outward.
  abbrev pub CameThrough : InquiryRequest fl.F → World tiers rates costs → Type 0
  CameThrough req w =
      (ent : UserEntitlement fl.F) × (ready : InquiryRequest fl.F) × ((prepare fmt tiers rates costs
          cal parts occ req w).0
        ≡ ok (ent, ready))
      × Cleared fmt tiers rates costs cal parts occ ent ready w.rate_counters w.cost_counters

  -- No request is sent and no event is published before the policies are passed: either `Execute`
  -- leaves the dispatcher with its breakers and the queue of events as they were, or it resolved an
  -- entitlement and prepared a request that the guardrails of the input, the rate limits and the
  -- budgets let through on the counters of before the call.
  pub outward_needs_clearance :
      (req : InquiryRequest fl.F) (w : World tiers rates costs)
      → ((execute fmt tiers rates costs cal parts occ req w).1.dispatcher ≡ w.dispatcher)
          × ((execute fmt tiers rates costs cal parts occ req w).1.producer ≡ w.producer)
        ⊎ CameThrough req w
  unfolding execute
  outward_needs_clearance req w =
      let kept = prepare-Keeps fmt tiers rates costs cal parts occ req w in
      elim (Result-cases (prepare fmt tiers rates costs cal parts occ req w).0) [
        | inr (m, e) ↦
            let same = bind-err (prepare fmt tiers rates costs cal parts occ req) _ w m e in
            inl (
              ap (λ v. v.dispatcher) same
                  ∙ ap (λ (v : Shared tiers rates costs). v.dispatcher) kept,
              ap (λ v. v.producer) same ∙ ap (λ (v : Shared tiers rates costs). v.producer) kept,
            )
        | inl ((ent, ready), e) ↦
            let w₁ = (prepare fmt tiers rates costs cal parts occ req w).1 in
            elim (Result-cases
              (check_policies fmt tiers rates costs cal parts occ ent ready w₁).0) [
                | inl (_, g) ↦
                    let cleared =
                      (check_policies-Cleared fmt tiers rates costs cal parts occ ent ready w₁
                        g).0 in
                    inr (
                      ent,
                      ready,
                      e,
                      subst
                          (λ (v : Shared tiers rates costs).
                            Cleared fmt tiers rates costs cal parts occ ent ready v.rate_counters
                              v.cost_counters)
                          kept cleared,
                    )
                | inr (m, g) ↦
                    let same =
                      ap (λ x. x.1)
                        (bind-after (prepare fmt tiers rates costs cal parts occ req)
                          (λ p.
                            check_policies fmt tiers rates costs cal parts occ p.0 p.1
                            >> complete fmt tiers rates costs cal parts occ p.0 p.1)
                          w (ent, ready) e)
                      ∙ bind-err (check_policies fmt tiers rates costs cal parts occ ent ready)
                          (λ _. complete fmt tiers rates costs cal parts occ ent ready) w₁ m g in
                    let quiet = check_policies-outward ent ready w₁ in
                    inl (
                      ap (λ v. v.dispatcher) same
                          ∙ ap (λ x. x.0) quiet
                          ∙ ap (λ (v : Shared tiers rates costs). v.dispatcher) kept,
                      ap (λ v. v.producer) same
                          ∙ ap (λ x. x.1) quiet
                          ∙ ap (λ (v : Shared tiers rates costs). v.producer) kept,
                    )
              ]
      ]
