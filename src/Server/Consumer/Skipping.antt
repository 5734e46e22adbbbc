-- ===== src/Server/Consumer/Skipping.antt =====
-- consumer.go: which offset is committed.
use pangreksa_aigateway.Prelude.{
  ℕ, suc, ◌+◌, ◌≡◌, refl, ap, ◌∙◌, Bool, true, false, List, [], ◌∷◌, ◌++◌, ◌&&◌, if◌then◌else◌,
  length, arith, Result, ok, err, inl, inr, Result-cases,
}
use mathlib.Core.Path.{subst}
use pangreksa_aigateway.Prelude.Texts.{Text}
use pangreksa_aigateway.Model.Inquiry.{TransactionEvent}
use pangreksa_aigateway.Server.Repository.{Tables}
use pangreksa_aigateway.Server.Consumer.{
  after_persist, persist, Codec, Processing, State, Outcome, process_message, commit_if,
  safe_process, consume,
}
use pangreksa_aigateway.Server.Consumer

abbrev pub is_done : Outcome → Bool
is_done Consumer.done = true
is_done (Consumer.failed e) = false
is_done Consumer.panicked = false

module _ {F : Type 0} (codec : Codec F) where
  process_message-offset :
      (io : Processing) (value : Text) (st : State F)
      → (process_message codec io value st).1.offset ≡ st.offset
  unfolding process_message
  process_message-offset io value st = elim (Result-cases (codec.unmarshal value)) [
    | inr (m, bad) ↦ rw (bad, process_message)
    | inl (event, good) ↦
        rw (good, process_message)
          (after_persist-offset io event st (persist codec io event st.tables))
  ]
    where
      after_persist-offset :
          (io : Processing) (event : TransactionEvent F) (st : State F)
          (r : Result (Unit {0}) × Tables F)
          → (after_persist codec io event st r).1.offset ≡ st.offset
      after_persist-offset io event st (ok _, t) = refl
      after_persist-offset io event st (err e, t) = refl

  commit_if-offset :
      (committed : Bool) (position : ℕ) (r : Outcome × State F)
      → (commit_if codec committed position r).offset
        ≡ (if committed && is_done r.0 then suc position else r.1.offset)
  commit_if-offset true position (Consumer.done, st) = refl
  commit_if-offset false position (Consumer.done, st) = refl
  commit_if-offset true position (Consumer.failed e, st) = refl
  commit_if-offset true position (Consumer.panicked, st) = refl
  commit_if-offset false position (Consumer.failed e, st) = refl
  commit_if-offset false position (Consumer.panicked, st) = refl

  safe_process-offset :
      (io : Processing) (position : ℕ) (value : Text) (st : State F)
      → (safe_process codec io position value st).offset ≡ (
          if io.committed && is_done (process_message codec io value st).0
          then suc position
          else st.offset)
  unfolding safe_process
  safe_process-offset io position value st =
      subst
        (λ (n : ℕ).
          (commit_if codec io.committed position (process_message codec io value st)).offset ≡ (
            if io.committed && is_done (process_message codec io value st).0
            then suc position
            else n))
        (process_message-offset io value st)
        (commit_if-offset io.committed position (process_message codec io value st))

  consume-snoc :
      (io : ℕ → Processing) (position n : ℕ) (values : List Text) (value : Text) (st : State F)
      → position + length values ≡ n
      → consume codec io position (values ++ value ∷ []) st
        ≡ safe_process codec (io n) n value (consume codec io position values st)
  unfolding consume
  consume-snoc io position n [] value st e =
      ap (λ (k : ℕ). safe_process codec (io k) k value st) (omega (arith, e))
  consume-snoc io position n (v ∷ values) value st e =
      consume-snoc io (suc position) n values value _ (omega (arith, e))

  -- The offset that Kafka holds after a further message is the one behind that message if it was
  -- processed to the end and committed, whatever became of the messages before it, and the offset of
  -- before otherwise. So a message that failed is passed over by the commit of the next good one.
  pub consume-offset :
      (io : ℕ → Processing) (position : ℕ) (values : List Text) (value : Text) (st : State F)
      → (consume codec io position (values ++ value ∷ []) st).offset ≡ (
          if (io (position + length values)).committed
            && is_done
                (process_message codec
                  (io (position + length values))
                  value
                  (consume codec io position values st)).0
          then suc (position + length values)
          else (consume codec io position values st).offset)
  consume-offset io position values value st =
      ap (λ (v : State F). v.offset)
        (consume-snoc io position (position + length values) values value st refl)
      ∙ safe_process-offset (io (position + length values)) (position + length values) value _
