-- ===== src/Llm/Breaker/Views.antt =====
-- The state of one provider under each method: every method works on its own provider's entry.
use pangreksa_aigateway.Prelude.{
  ℕ, ◌≡◌, Option, none, some, arith, if◌then◌else◌, inl, inr, Option-cases, Bool-cases,
}
use pangreksa_aigateway.Prelude.Texts.{Text, text_eq, text_eq_iff, text_eq_sound}
use pangreksa_aigateway.Prelude.Dict.{lookup, lookup-insert}
use pangreksa_aigateway.Llm.Breaker.{
  ProviderState, CircuitBreaker, fresh, get_or_create, store, allow_switch, allow, on_success,
  record_success, on_failure, record_failure,
}

abbrev or_fresh : Option ProviderState → ProviderState
or_fresh none = fresh
or_fresh (some ps) = ps

-- The provider's entry, or the one that its first call makes.
unfoldable pub state_of : CircuitBreaker → Text → ProviderState
state_of cb p = or_fresh (lookup p cb.providers)

get_or_create-state_of :
    (cb : CircuitBreaker) (p q : Text)
    → ((get_or_create cb p).0 ≡ state_of cb p) × (state_of (get_or_create cb p).1 q ≡ state_of cb q)
unfolding state_of get_or_create
get_or_create-state_of cb p q = elim (Option-cases (lookup p cb.providers)) [
  | inl e ↦ ground (arith, e, text_eq_iff p q, lookup-insert p q fresh cb.providers)
  | inr (ps, e) ↦ ground (arith, e)
]

state_of-store :
    (cb : CircuitBreaker) (p q : Text) (ps : ProviderState)
    → state_of (store cb p ps) q ≡ (if text_eq p q then ps else state_of cb q)
unfolding state_of store
state_of-store cb p q ps = ground (arith, lookup-insert p q ps cb.providers)

-- In the branch where the keys agree, either may be written.
if_same_key :
    (f : ProviderState → ProviderState) (cb : CircuitBreaker) (p q : Text)
    → (if text_eq p q then f (state_of cb p) else state_of cb q)
      ≡ (if text_eq p q then f (state_of cb q) else state_of cb q)
if_same_key f cb p q = elim (Bool-cases (text_eq p q)) [
  | inl e ↦ rw (text_eq_sound p q e)
  | inr e ↦ rw e
]

pub answer-allow :
    (now : ℕ) (p : Text) (cb : CircuitBreaker)
    → (allow now p cb).0 ≡ (allow_switch now (state_of cb p).state (state_of cb p)).0
unfolding allow
answer-allow now p cb = rw (get_or_create-state_of cb p p).0

pub state_of-allow :
    (now : ℕ) (p q : Text) (cb : CircuitBreaker)
    → state_of (allow now p cb).1 q ≡ (
        if text_eq p q
        then (allow_switch now (state_of cb q).state (state_of cb q)).1
        else state_of cb q)
unfolding allow
state_of-allow now p q cb =
    rw
      (
        (get_or_create-state_of cb p q).0,
        state_of-store (get_or_create cb p).1 p q _,
        (get_or_create-state_of cb p q).1,
      )
      (if_same_key (λ ps. (allow_switch now ps.state ps).1) cb p q)

pub state_of-record_success :
    (p q : Text) (cb : CircuitBreaker)
    → state_of (record_success p cb) q
      ≡ (if text_eq p q then on_success (state_of cb q) else state_of cb q)
unfolding record_success
state_of-record_success p q cb =
    rw
      (
        (get_or_create-state_of cb p q).0,
        state_of-store (get_or_create cb p).1 p q _,
        (get_or_create-state_of cb p q).1,
      )
      (if_same_key on_success cb p q)

pub state_of-record_failure :
    (now : ℕ) (p q : Text) (cb : CircuitBreaker)
    → state_of (record_failure now p cb) q
      ≡ (if text_eq p q then on_failure now (state_of cb q) else state_of cb q)
unfolding record_failure
state_of-record_failure now p q cb =
    rw
      (
        (get_or_create-state_of cb p q).0,
        state_of-store (get_or_create cb p).1 p q _,
        (get_or_create-state_of cb p q).1,
      )
      (if_same_key (on_failure now) cb p q)
