-- ===== src/Llm/Breaker/Invariant.antt =====
-- circuitbreaker.go: what holds of every provider's state between two calls.
use pangreksa_aigateway.Prelude.{
  ℕ, ◌<◌, ◌≡◌, Bool, true, false, List, [], ◌∷◌, arith, if◌then◌else◌, length,
}
use pangreksa_aigateway.Prelude.Texts.{Text, text_eq}
use pangreksa_aigateway.Prelude.Dict.{lookup}
use pangreksa_aigateway.Llm.Breaker.{
  closed, half_open, ProviderState, CircuitBreaker, new_circuit_breaker, allow_switch, on_success,
  on_failure, Call, allows, succeeds, fails, step, run, failure_threshold,
}
use pangreksa_aigateway.Llm.Breaker.Views.{
  state_of, state_of-allow, state_of-record_success, state_of-record_failure,
}

-- A closed breaker is short of the threshold, and a probe is in flight exactly in half-open.
pub record IsValid (ps : ProviderState) : Type 0 where
  pub short : ps.state ≡ closed → length ps.failures < failure_threshold
  pub probing : ps.state ≡ half_open → ps.half_open_in_flight ≡ true
  pub in_flight : ps.half_open_in_flight ≡ true → ps.state ≡ half_open

pub allow_switch-IsValid :
    (now : ℕ) (ps : ProviderState) → IsValid ps → IsValid (allow_switch now ps.state ps).1
unfolding allow_switch
allow_switch-IsValid now ps v = ground arith

pub on_success-IsValid : (ps : ProviderState) → IsValid (on_success ps)
unfolding on_success
on_success-IsValid ps = ground arith

pub on_failure-IsValid : (now : ℕ) (ps : ProviderState) → IsValid ps → IsValid (on_failure now ps)
unfolding on_failure
on_failure-IsValid now ps v = ground arith

if-IsValid : (b : Bool) (s t : ProviderState) → IsValid s → IsValid t → IsValid (if b then s else t)
if-IsValid true s t v w = v
if-IsValid false s t v w = w

step-IsValid :
    (cb : CircuitBreaker) (c : Call)
    → ((p : Text) → IsValid (state_of cb p))
    → (p : Text) → IsValid (state_of (step cb c) p)
unfolding step
step-IsValid cb (allows now q) v p =
    rw (state_of-allow now q p cb)
      (if-IsValid (text_eq q p) _ _ (allow_switch-IsValid now _ (v p)) (v p))
step-IsValid cb (succeeds q) v p =
    rw (state_of-record_success q p cb)
      (if-IsValid (text_eq q p) _ _ (on_success-IsValid (state_of cb p)) (v p))
step-IsValid cb (fails now q) v p =
    rw (state_of-record_failure now q p cb)
      (if-IsValid (text_eq q p) _ _ (on_failure-IsValid now _ (v p)) (v p))

run-IsValid_from :
    (cb : CircuitBreaker) (cs : List Call)
    → ((p : Text) → IsValid (state_of cb p))
    → (p : Text) → IsValid (state_of (run cb cs) p)
unfolding run
run-IsValid_from cb [] v p = v p
run-IsValid_from cb (c ∷ cs) v p = run-IsValid_from (step cb c) cs (step-IsValid cb c v) p

-- After any sequence of calls on a new breaker, for any providers and at any times, each provider's
-- state satisfies the invariant: while closed it holds fewer than five failures, and a probe is
-- marked in flight exactly when the state is half-open.
pub run-IsValid : (cs : List Call) (p : Text) → IsValid (state_of (run new_circuit_breaker cs) p)
unfolding new_circuit_breaker state_of lookup
run-IsValid cs p = run-IsValid_from new_circuit_breaker cs (λ q. ground arith) p
