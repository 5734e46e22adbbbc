-- ===== src/Llm/Breaker/Window.antt =====
-- circuitbreaker.go: the pruned failure list against the history of calls.
use pangreksa_aigateway.Prelude.{
  ℕ, ◌≤◌, ◌≡◌, ◌↔◌, refl, sym, ap, ◌∙◌, Bool, true, false, List, [], ◌∷◌, ◌++◌, arith,
  if◌then◌else◌, length,
}
use pangreksa_aigateway.Prelude.Texts.{Text, text_eq, text_eq_refl}
use pangreksa_aigateway.Prelude.Dict.{lookup}
use pangreksa_aigateway.Llm.Breaker.{
  State, closed, opened, half_open, ProviderState, CircuitBreaker, new_circuit_breaker,
  allow_switch, allow, on_success, record_success, on_failure, record_failure, prune_failures, Call,
  allows, succeeds, fails, step, run, failure_threshold,
}
use pangreksa_aigateway.Llm.Breaker.Views.{
  state_of, state_of-allow, state_of-record_success, state_of-record_failure,
}
use pangreksa_aigateway.Llm.Breaker.Recent.{
  recent, IsAscending, prune_failures-recent, recent-recent, recent-append, recent-IsAscending,
  snoc-IsAscending,
}

-- The provider's failures since its last success, oldest first, none forgotten.
pub failure_log : Text → List ℕ → List Call → List ℕ
failure_log p log [] = log
failure_log p log (allows now q ∷ cs) = failure_log p log cs
failure_log p log (succeeds q ∷ cs) = failure_log p (if text_eq q p then [] else log) cs
failure_log p log (fails now q ∷ cs) =
    failure_log p (if text_eq q p then log ++ now ∷ [] else log) cs

-- The calls' times do not fall, from `t` up to `end`.
abbrev pub IsTimed : ℕ → List Call → ℕ → Type 0
IsTimed t [] end = t ≤ end
IsTimed t (allows now q ∷ cs) end = (t ≤ now) × IsTimed now cs end
IsTimed t (succeeds q ∷ cs) end = IsTimed t cs end
IsTimed t (fails now q ∷ cs) end = (t ≤ now) × IsTimed now cs end

-- What a breaker's entry remembers of the log at time `t`.
record Tracks (t : ℕ) (ps : ProviderState) (log : List ℕ) : Type 0 where
  ordered : IsAscending t log
  kept : (now : ℕ) → t ≤ now → recent now ps.failures ≡ recent now log
  entry : IsAscending t ps.failures

IsAscending-later : (t t' : ℕ) (fs : List ℕ) → t ≤ t' → IsAscending t fs → IsAscending t' fs
IsAscending-later t t' [] h a = tt
IsAscending-later t t' (f ∷ fs) h a = (omega arith, a.1, IsAscending-later t t' fs h a.2)

Tracks-later :
    (t t' : ℕ) (ps : ProviderState) (log : List ℕ) → t ≤ t' → Tracks t ps log → Tracks t' ps log
Tracks-later t t' ps log h k = record {
  ordered = IsAscending-later t t' log h k.ordered;
  kept = λ now late. k.kept now (omega arith);
  entry = IsAscending-later t t' ps.failures h k.entry;
}

Tracks-same :
    (t : ℕ) (ps ps' : ProviderState) (log : List ℕ)
    → ps'.failures ≡ ps.failures
    → Tracks t ps log
    → Tracks t ps' log
Tracks-same t ps ps' log e k = record {
  ordered = k.ordered;
  kept = λ now late. rw e (k.kept now late);
  entry = rw e k.entry;
}

failures-allow_switch :
    (now : ℕ) (s : State) (ps : ProviderState) → (allow_switch now s ps).1.failures ≡ ps.failures
unfolding allow_switch
failures-allow_switch now closed ps = refl
failures-allow_switch now opened ps = ground arith
failures-allow_switch now half_open ps = ground arith

failures-on_failure :
    (now : ℕ) (ps : ProviderState)
    → (on_failure now ps).failures ≡ prune_failures (ps.failures ++ now ∷ []) now
unfolding on_failure
failures-on_failure now ps = ground arith

Tracks-on_success : (t : ℕ) (ps : ProviderState) → Tracks t (on_success ps) []
unfolding on_success
Tracks-on_success t ps = record { ordered = tt; kept = λ now late. refl; entry = tt }

-- The failures that an entry holds after one more, as a test of each failure of the log.
failures-on_failure_log :
    (t now : ℕ) (ps : ProviderState) (log : List ℕ)
    → t ≤ now
    → Tracks t ps log
    → (on_failure now ps).failures ≡ recent now (log ++ now ∷ [])
failures-on_failure_log t now ps log h k =
    failures-on_failure now ps
    ∙ prune_failures-recent now now _ (snoc-IsAscending t now ps.failures h k.entry)
    ∙ recent-append now ps.failures (now ∷ [])
    ∙ ap (λ xs. xs ++ recent now (now ∷ [])) (k.kept now h)
    ∙ sym (recent-append now log (now ∷ []))

Tracks-on_failure :
    (t now : ℕ) (ps : ProviderState) (log : List ℕ)
    → t ≤ now
    → Tracks t ps log
    → Tracks now (on_failure now ps) (log ++ now ∷ [])
Tracks-on_failure t now ps log h k =
    let ordered = snoc-IsAscending t now log h k.ordered in
    let e = failures-on_failure_log t now ps log h k in
    record {
      ordered = ordered;
      kept = λ later late. rw e (recent-recent now later _ late);
      entry = rw e (recent-IsAscending now now _ ordered);
    }

Tracks-if :
    (t : ℕ) (b : Bool) (s s' : ProviderState) (log log' : List ℕ)
    → Tracks t s log
    → Tracks t s' log'
    → Tracks t (if b then s else s') (if b then log else log')
Tracks-if t true s s' log log' k k' = k
Tracks-if t false s s' log log' k k' = k'

Tracks-if_same :
    (t : ℕ) (b : Bool) (s s' : ProviderState) (log : List ℕ)
    → s.failures ≡ s'.failures
    → Tracks t s' log
    → Tracks t (if b then s else s') log
Tracks-if_same t true s s' log e k = Tracks-same t s' s log e k
Tracks-if_same t false s s' log e k = k

run-Tracks :
    (t end : ℕ) (cb : CircuitBreaker) (cs : List Call) (p : Text) (log : List ℕ)
    → IsTimed t cs end
    → Tracks t (state_of cb p) log
    → Tracks end (state_of (run cb cs) p) (failure_log p log cs)
unfolding run step failure_log
run-Tracks t end cb [] p log h k = Tracks-later t end _ log h k
run-Tracks t end cb (allows now q ∷ cs) p log h k =
    run-Tracks now end (allow now q cb).1 cs p log h.1 (
      rw (state_of-allow now q p cb) (
        Tracks-later t now _ log h.0
          (Tracks-if_same t (text_eq q p) _ _ log (failures-allow_switch now _ _) k)))
run-Tracks t end cb (succeeds q ∷ cs) p log h k = run-Tracks t end (record_success q cb) cs p _ h (
    rw (state_of-record_success q p cb)
      (Tracks-if t (text_eq q p) _ _ [] log (Tracks-on_success t _) k))
run-Tracks t end cb (fails now q ∷ cs) p log h k =
    run-Tracks now end (record_failure now q cb) cs p _ h.1 (
      rw (state_of-record_failure now q p cb) (
        Tracks-if now (text_eq q p) _ _ _ log (Tracks-on_failure t now _ log h.0 k)
          (Tracks-later t now _ log h.0 k)))

state-on_failure :
    (now : ℕ) (ps : ProviderState)
    → ps.state ≡ closed
    → ((on_failure now ps).state ≡ opened)
      ↔ (failure_threshold ≤ length (prune_failures (ps.failures ++ now ∷ []) now))
unfolding on_failure
state-on_failure now ps c = ground arith

new-Tracks : (p : Text) → Tracks 0 (state_of new_circuit_breaker p) []
unfolding new_circuit_breaker state_of lookup
new-Tracks p = record { ordered = tt; kept = λ now late. refl; entry = tt }

-- Take any timed history of calls on a new breaker after which provider `p` is closed, and a
-- failure of `p` at or after the history's end. The failure opens the breaker exactly when, with
-- itself, at least five of the failures of `p` since its last success are at most ten seconds old.
pub opens-iff-recent :
    (cs : List Call) (end now : ℕ) (p : Text)
    → IsTimed 0 cs end
    → end ≤ now
    → (state_of (run new_circuit_breaker cs) p).state ≡ closed
    → ((state_of (record_failure now p (run new_circuit_breaker cs)) p).state ≡ opened)
      ↔ (failure_threshold ≤ length (recent now (failure_log p [] cs ++ now ∷ [])))
opens-iff-recent cs end now p timed late c =
    let cb = run new_circuit_breaker cs in
    let k = run-Tracks 0 end new_circuit_breaker cs p [] timed (new-Tracks p) in
    rw
      (
        state_of-record_failure now p p cb,
        text_eq_refl p,
        ← failures-on_failure_log end now (state_of cb p) _ late k,
        failures-on_failure now (state_of cb p),
      )
      (state-on_failure now (state_of cb p) c)
