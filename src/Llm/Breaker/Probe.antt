-- ===== src/Llm/Breaker/Probe.antt =====
-- circuitbreaker.go: the half-open probe, and the way back to closed.
use pangreksa_aigateway.Prelude.{
  ℕ, suc, ◌+◌, ◌≤◌, ◌≡◌, ◌≢◌, ◌↔◌, refl, ◌∙◌, Bool, true, false, ◌&&◌, List, [], ◌∷◌, arith,
  if◌then◌else◌, inl, inr, Bool-cases,
}
use pangreksa_aigateway.Prelude.Texts.{Text, text_eq, text_eq_refl, text_eq_sound}
use pangreksa_aigateway.Llm.Breaker.{
  closed, opened, half_open, ProviderState, CircuitBreaker, new_circuit_breaker, allow_switch,
  allow, on_success, record_success, on_failure, record_failure, Call, allows, succeeds, fails,
  step, run, half_open_delay,
}
use pangreksa_aigateway.Llm.Breaker.Views.{
  state_of, answer-allow, state_of-allow, state_of-record_success, state_of-record_failure,
}
use pangreksa_aigateway.Llm.Breaker.Invariant.{IsValid, run-IsValid, allow_switch-IsValid}

-- How often a sequence of calls lets a request to `p` through.
pub granted : Text → CircuitBreaker → List Call → ℕ
granted p cb [] = 0
granted p cb (allows now q ∷ cs) =
    let rest = granted p (allow now q cb).1 cs in
    if text_eq q p && (allow now q cb).0 then suc rest else rest
granted p cb (c ∷ cs) = granted p (step cb c) cs

-- No outcome of a call to `p` is recorded.
abbrev pub NoOutcome : Text → List Call → Type 0
NoOutcome p [] = Unit {0}
NoOutcome p (allows now q ∷ cs) = NoOutcome p cs
NoOutcome p (succeeds q ∷ cs) = (text_eq q p ≡ false) × NoOutcome p cs
NoOutcome p (fails now q ∷ cs) = (text_eq q p ≡ false) × NoOutcome p cs

-- The requests that a tripped provider still lets through: a probe in flight uses up the one.
abbrev probes_left : ProviderState → ℕ
probes_left ps = if ps.half_open_in_flight then 0 else 1

probe_step :
    (now : ℕ) (ps : ProviderState)
    → IsValid ps
    → ps.state ≢ closed
    → let r = allow_switch now ps.state ps in
      ((if r.0 then 1 else 0) + probes_left r.1 ≤ probes_left ps) × (r.1.state ≢ closed)
unfolding allow_switch
probe_step now ps v h = ground arith

counted :
    (b : Bool) (n m k : ℕ) → n ≤ m → (if b then 1 else 0) + m ≤ k → (if b then suc n else n) ≤ k
counted true n m k h l = omega arith
counted false n m k h l = omega arith

granted-le-probes_left :
    (p : Text) (cb : CircuitBreaker) (cs : List Call)
    → IsValid (state_of cb p)
    → (state_of cb p).state ≢ closed
    → NoOutcome p cs
    → granted p cb cs ≤ probes_left (state_of cb p)
unfolding granted step
granted-le-probes_left p cb [] v h n = omega arith
granted-le-probes_left p cb (allows now q ∷ cs) v h n = elim (Bool-cases (text_eq q p)) [
  | inl same ↦
      let s = state_of cb p in
      let answer : (allow now q cb).0 ≡ (allow_switch now s.state s).0 =
        rw (text_eq_sound q p same) (answer-allow now p cb) in
      let after : state_of (allow now q cb).1 p ≡ (allow_switch now s.state s).1 =
        rw (state_of-allow now q p cb, same) in
      let (less, tripped) = probe_step now s v h in
      let rest =
        granted-le-probes_left p (allow now q cb).1 cs (rw after (allow_switch-IsValid now s v))
          (rw after tripped) n in
      rw (same, answer) (counted _ _ _ _ (rw after at rest) less)
  | inr other ↦
      let e : state_of (allow now q cb).1 p ≡ state_of cb p =
        rw (state_of-allow now q p cb, other) in
      rw (other, ← e) (granted-le-probes_left p (allow now q cb).1 cs (rw e v) (rw e h) n)
]
granted-le-probes_left p cb (succeeds q ∷ cs) v h n =
    let e : state_of (record_success q cb) p ≡ state_of cb p =
      rw (state_of-record_success q p cb, n.0) in
    rw (← e) (granted-le-probes_left p (record_success q cb) cs (rw e v) (rw e h) n.1)
granted-le-probes_left p cb (fails now q ∷ cs) v h n =
    let e : state_of (record_failure now q cb) p ≡ state_of cb p =
      rw (state_of-record_failure now q p cb, n.0) in
    rw (← e) (granted-le-probes_left p (record_failure now q cb) cs (rw e v) (rw e h) n.1)

-- After any history of a new breaker, once a provider's breaker is not closed, every further
-- sequence of calls that records no outcome for this provider lets at most one request to it
-- through, whatever the times and whatever happens to other providers; and none at all if a probe
-- is in flight already.
pub one_probe :
    (past cs : List Call) (p : Text)
    → (state_of (run new_circuit_breaker past) p).state ≢ closed
    → NoOutcome p cs
    → granted p (run new_circuit_breaker past) cs
      ≤ (if (state_of (run new_circuit_breaker past) p).half_open_in_flight then 0 else 1)
one_probe past cs p h n =
    granted-le-probes_left p (run new_circuit_breaker past) cs (run-IsValid past p) h n

opened_switch :
    (now : ℕ) (ps : ProviderState)
    → ps.state ≡ opened
    → let r = allow_switch now ps.state ps in
      ((r.0 ≡ true) ↔ (ps.opened_at + half_open_delay ≤ now))
      × (r.1 ≡ (if r.0 then record ps { state = half_open; half_open_in_flight = true } else ps))
unfolding allow_switch
opened_switch now ps h = ground arith

-- An open breaker lets a request through exactly when thirty seconds have passed since it opened.
-- The request that it lets through makes it half-open with a probe in flight; a refused one leaves
-- the provider's state as it was.
pub opened_waits :
    (cb : CircuitBreaker) (p : Text) (now : ℕ)
    → (state_of cb p).state ≡ opened
    → (((allow now p cb).0 ≡ true) ↔ ((state_of cb p).opened_at + half_open_delay ≤ now))
      × (state_of (allow now p cb).1 p ≡ (
          if (allow now p cb).0
          then record (state_of cb p) { state = half_open; half_open_in_flight = true }
          else state_of cb p))
opened_waits cb p now h =
    rw (answer-allow now p cb, state_of-allow now p p cb, text_eq_refl p)
      (opened_switch now (state_of cb p) h)

healed_switch :
    (later : ℕ) (ps : ProviderState)
    → (allow_switch later (on_success ps).state (on_success ps)).0 ≡ true
unfolding allow_switch on_success
healed_switch later ps = refl

reopened_switch :
    (t later : ℕ) (ps : ProviderState)
    → ps.state ≡ half_open
    → ((allow_switch later (on_failure t ps).state (on_failure t ps)).0 ≡ true)
      ↔ (t + half_open_delay ≤ later)
unfolding allow_switch on_failure
reopened_switch t later ps h = ground arith

-- Once thirty seconds have passed since a breaker opened, one request is let through as a probe.
-- If it succeeds, the provider is closed with no failure left to count, and requests pass at any
-- time. If it fails at `t`, requests pass again exactly from thirty seconds after `t`.
pub recovery :
    (cb : CircuitBreaker) (p : Text) (now t later : ℕ)
    → (state_of cb p).state ≡ opened
    → (state_of cb p).opened_at + half_open_delay ≤ now
    → ((allow now p cb).0 ≡ true)
      × (state_of (record_success p (allow now p cb).1) p
          ≡ record (state_of cb p) { state = closed; failures = []; half_open_in_flight = false })
      × ((allow later p (record_success p (allow now p cb).1)).0 ≡ true)
      × (((allow later p (record_failure t p (allow now p cb).1)).0 ≡ true)
          ↔ (t + half_open_delay ≤ later))
unfolding on_success
recovery cb p now t later h due =
    let s = state_of cb p in
    let (when, next) = opened_switch now s h in
    let passed = when.1 due in
    let probing : ProviderState = record s { state = half_open; half_open_in_flight = true } in
    let after : state_of (allow now p cb).1 p ≡ probing =
      rw (state_of-allow now p p cb, text_eq_refl p) (rw passed at next) in
    let healed : state_of (record_success p (allow now p cb).1) p ≡ on_success probing =
      rw (state_of-record_success p p (allow now p cb).1, text_eq_refl p, after) refl in
    let failed : state_of (record_failure t p (allow now p cb).1) p ≡ on_failure t probing =
      rw (state_of-record_failure t p p (allow now p cb).1, text_eq_refl p, after) refl in
    (
      answer-allow now p cb ∙ passed,
      healed,
      rw (answer-allow later p (record_success p (allow now p cb).1), healed)
          (healed_switch later probing),
      rw (answer-allow later p (record_failure t p (allow now p cb).1), failed)
          (reopened_switch t later probing refl),
    )
