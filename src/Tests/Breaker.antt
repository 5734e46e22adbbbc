-- ===== src/Tests/Breaker.antt =====
-- Runs of the circuit breaker for two providers.
use pangreksa_aigateway.Prelude.{
  ℕ, ◌+◌, ◌*◌, ◌≤◌, ◌≡◌, ◌↔◌, refl, true, false, List, [], ◌∷◌, ◌++◌, arith, if◌then◌else◌, length,
}
use pangreksa_aigateway.Prelude.Texts.{Text, codes, text_eq}
use pangreksa_aigateway.Prelude.Dict.{lookup, insert}
use pangreksa_aigateway.Llm.Breaker.{
  closed, opened, CircuitBreaker, new_circuit_breaker, get_or_create, store, allow_switch, allow,
  on_success, record_success, on_failure, record_failure, prune_failures, Call, allows, succeeds,
  fails, step, run, failure_threshold, half_open_delay,
}
use pangreksa_aigateway.Llm.Breaker.Views.{state_of}
use pangreksa_aigateway.Llm.Breaker.Invariant.{IsValid, run-IsValid}
use pangreksa_aigateway.Llm.Breaker.Recent.{recent}
use pangreksa_aigateway.Llm.Breaker.Window.{failure_log, opens-iff-recent}
use pangreksa_aigateway.Llm.Breaker.Probe.{granted, one_probe, recovery}

abbrev openai : Text
openai = codes "openai"

abbrev claude : Text
claude = codes "claude"

abbrev second : ℕ
second = 1_000_000_000

-- Four failures of a provider, with a success and a failure of another in between.
abbrev four : List Call
four =
    allows second openai
    ∷ fails second openai
    ∷ fails (2 * second) openai
    ∷ succeeds claude
    ∷ fails (3 * second) claude
    ∷ fails (4 * second) openai
    ∷ fails (5 * second) openai
    ∷ []

abbrev five : List Call
five = four ++ fails (6 * second) openai ∷ []

abbrev tripped : CircuitBreaker
tripped = run new_circuit_breaker five

run-IsValid_example : IsValid (state_of tripped openai)
run-IsValid_example = run-IsValid five openai

opens-iff-recent_example :
    ((state_of (record_failure (6 * second) openai (run new_circuit_breaker four)) openai).state
      ≡ opened)
    ↔ (failure_threshold
        ≤ length (recent (6 * second) (failure_log openai [] four ++ 6 * second ∷ [])))
unfolding run step allow allow_switch get_or_create store record_success on_success record_failure
    on_failure prune_failures new_circuit_breaker state_of lookup insert text_eq
opens-iff-recent_example =
    opens-iff-recent four (5 * second) (6 * second) openai (ground arith) (omega arith) refl

-- Calls after the breaker has opened, the first too early.
abbrev later : List Call
later =
    allows (7 * second) openai
    ∷ allows (36 * second) openai
    ∷ allows (90 * second) openai
    ∷ fails (91 * second) claude
    ∷ []

one_probe_example :
    granted openai tripped later ≤ (if (state_of tripped openai).half_open_in_flight then 0 else 1)
unfolding run step allow allow_switch get_or_create store record_success on_success record_failure
    on_failure prune_failures new_circuit_breaker state_of lookup insert text_eq
one_probe_example = one_probe five later openai (λ e. cc e) (refl, tt)

recovery_example :
    ((allow (36 * second) openai tripped).0 ≡ true)
    × (state_of (record_success openai (allow (36 * second) openai tripped).1) openai
        ≡ record (state_of tripped openai) {
          state = closed;
          failures = [];
          half_open_in_flight = false;
        })
    × ((allow (38 * second) openai (record_success openai (allow (36 * second) openai tripped).1)).0
        ≡ true)
    × (((allow
            (38 * second)
            openai
            (record_failure (37 * second) openai (allow (36 * second) openai tripped).1)).0
          ≡ true)
        ↔ (37 * second + half_open_delay ≤ 38 * second))
unfolding run step allow allow_switch get_or_create store record_success on_success record_failure
    on_failure prune_failures new_circuit_breaker state_of lookup insert text_eq
recovery_example =
    recovery tripped openai (36 * second) (37 * second) (38 * second) refl (omega arith)
