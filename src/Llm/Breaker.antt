-- ===== src/Llm/Breaker.antt =====
-- internal/llm/circuitbreaker.go. Times are nanoseconds on one clock and come as arguments where
-- the code reads `time.Now()`; the mutex makes each method one step. `time.Since(t) >= d` and
-- `f.Before(now.Add(-d))` are written with the difference on the other side, so that no
-- subtraction is truncated.
pub mod Views
pub mod Invariant
pub mod Recent
pub mod Window
pub mod Probe
use pangreksa_aigateway.Prelude.{
  ℕ, ◌+◌, Bool, true, false, ◌&&◌, List, [], ◌∷◌, ◌++◌, none, some, ltb, leb, if◌then◌else◌, length,
}
use pangreksa_aigateway.Prelude.Texts.{Text}
use pangreksa_aigateway.Prelude.Dict.{Dict, lookup, insert}

-- The values of `providerState.state`.
pub data State : Type 0 where
  closed opened half_open : State

abbrev pub failure_threshold : ℕ
failure_threshold = 5

abbrev pub observation_window : ℕ
observation_window = 10_000_000_000

abbrev pub half_open_delay : ℕ
half_open_delay = 30_000_000_000

pub record ProviderState : Type 0 where
  pub state : State
  pub failures : List ℕ
  pub opened_at : ℕ
  pub half_open_in_flight : Bool

pub record CircuitBreaker : Type 0 where
  pub providers : Dict ProviderState

unfoldable pub new_circuit_breaker : CircuitBreaker
new_circuit_breaker = record { providers = [] }

-- `&providerState{state: StateClosed}`: the other fields are zero values.
abbrev pub fresh : ProviderState
fresh = record { state = closed; failures = []; opened_at = 0; half_open_in_flight = false }

unfoldable pub get_or_create : CircuitBreaker → Text → ProviderState × CircuitBreaker
get_or_create cb provider = elim (lookup provider cb.providers) [
  | some ps ↦ (ps, cb)
  | none ↦ (fresh, record { providers = insert provider fresh cb.providers })
]

-- The write through the pointer that `get_or_create` returned.
unfoldable pub store : CircuitBreaker → Text → ProviderState → CircuitBreaker
store cb provider ps = record { providers = insert provider ps cb.providers }

-- The `switch` of `Allow`.
unfoldable pub allow_switch : ℕ → State → ProviderState → Bool × ProviderState
allow_switch now closed ps = (true, ps)
allow_switch now opened ps =
    if leb (ps.opened_at + half_open_delay) now
    then (true, record ps { state = half_open; half_open_in_flight = true })
    else (false, ps)
allow_switch now half_open ps =
    if ps.half_open_in_flight then (false, ps) else (true, record ps { half_open_in_flight = true })

unfoldable pub allow : ℕ → Text → CircuitBreaker → Bool × CircuitBreaker
allow now provider cb =
    let (ps, cb') = get_or_create cb provider in
    let (answer, ps') = allow_switch now ps.state ps in (answer, store cb' provider ps')

-- The body of `RecordSuccess` on the provider's state.
unfoldable pub on_success : ProviderState → ProviderState
on_success ps = record ps { state = closed; failures = []; half_open_in_flight = false }

unfoldable pub record_success : Text → CircuitBreaker → CircuitBreaker
record_success provider cb =
    let (ps, cb') = get_or_create cb provider in store cb' provider (on_success ps)

unfoldable pub prune_failures : List ℕ → ℕ → List ℕ
prune_failures [] now = []
prune_failures (f ∷ fs) now =
    let rest = prune_failures fs now in if ltb (f + observation_window) now then rest else f ∷ fs

abbrev pub is_closed : State → Bool
is_closed closed = true
is_closed _ = false

abbrev pub is_half_open : State → Bool
is_half_open half_open = true
is_half_open _ = false

-- The body of `RecordFailure` on the provider's state.
unfoldable pub on_failure : ℕ → ProviderState → ProviderState
on_failure now ps =
    let failures = prune_failures (ps.failures ++ now ∷ []) now in
    let ps' : ProviderState = record ps { failures = failures; half_open_in_flight = false } in
    if leb failure_threshold (length failures) && is_closed ps.state
    then record ps' { state = opened; opened_at = now }
    else if is_half_open ps.state
    then record ps' { state = opened; opened_at = now }
    else ps'

unfoldable pub record_failure : ℕ → Text → CircuitBreaker → CircuitBreaker
record_failure now provider cb =
    let (ps, cb') = get_or_create cb provider in store cb' provider (on_failure now ps)

-- One call of a method, with the time at which it runs.
pub data Call : Type 0 where
  allows : ℕ → Text → Call
  succeeds : Text → Call
  fails : ℕ → Text → Call

unfoldable pub step : CircuitBreaker → Call → CircuitBreaker
step cb (allows now p) = (allow now p cb).1
step cb (succeeds p) = record_success p cb
step cb (fails now p) = record_failure now p cb

unfoldable pub run : CircuitBreaker → List Call → CircuitBreaker
run cb [] = cb
run cb (c ∷ cs) = run (step cb c) cs
