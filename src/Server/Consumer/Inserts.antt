-- ===== src/Server/Consumer/Inserts.antt =====
-- consumer.go: no step loses a row of the two tables.
use pangreksa_aigateway.Prelude.{
  ℕ, suc, ◌≡◌, refl, sym, Bool, true, false, List, [], ◌∷◌, Result, ok, err, any, inl, inr,
  Bool-cases, Option-cases, Result-cases,
}
use mathlib.Core.Path.{subst}
use pangreksa_aigateway.Prelude.Texts.{Text}
use pangreksa_aigateway.Model.Inquiry.{TransactionEvent}
use pangreksa_aigateway.Server.Repository.{
  LogRow, CostRow, Tables, Times, Exec, is_executed, log_row, cost_row, same_log, same_cost,
  insert_log, insert_cost,
}
use pangreksa_aigateway.Server.Repository.Keys.{any-insert_new}
use pangreksa_aigateway.Server.Consumer.{
  Codec, Processing, State, Outcome, fan_out, after_persist, persist, process_message, commit_if,
  safe_process, consume,
}
use pangreksa_aigateway.Server.Consumer

module _ {F : Type 0} where
  -- No row with some property is lost.
  pub record Grows (t t' : Tables F) : Type 0 where
    pub logs : (p : LogRow F → Bool) → any p t.request_logs ≡ true → any p t'.request_logs ≡ true
    pub costs : (p : CostRow F → Bool) → any p t.cost_records ≡ true → any p t'.cost_records ≡ true

  Grows-refl : (t : Tables F) → Grows t t
  Grows-refl t = record { logs = λ p h. h; costs = λ p h. h }

  Grows-trans : {t u v : Tables F} → Grows t u → Grows u v → Grows t v
  Grows-trans g h = record {
    logs = λ p a. h.logs p (g.logs p a);
    costs = λ p a. h.costs p (g.costs p a);
  }

  insert_log-Grows :
      (times : Times) (x : Exec) (event : TransactionEvent F) (t : Tables F)
      → Grows t (insert_log times x event t).1
  unfolding insert_log
  insert_log-Grows times x event t = elim (Option-cases (times.read_timestamp event.created_at)) [
    | inl bad ↦ rw (bad, insert_log) (Grows-refl t)
    | inr (instant, good) ↦ elim (Bool-cases (is_executed x)) [
      | inl here ↦
          rw (good, insert_log, here)
            (record {
              logs = λ p h. any-insert_new same_log p (log_row instant event) t.request_logs h;
              costs = λ p h. h;
            })
      | inr lost ↦ rw (good, insert_log, lost) (Grows-refl t)
    ]
  ]

  pub insert_cost-Grows :
      (times : Times) (x : Exec) (now : ℕ) (event : TransactionEvent F) (t : Tables F)
      → Grows t (insert_cost times x now event t).1
  unfolding insert_cost
  insert_cost-Grows times x now event t = elim (Bool-cases (is_executed x)) [
    | inl here ↦ rw (here) (record {
      logs = λ p h. h;
      costs = λ p h. any-insert_new same_cost p (cost_row times now event) t.cost_records h;
    })
    | inr lost ↦ rw lost (Grows-refl t)
  ]

module _ {F : Type 0} (codec : Codec F) where
  pub persist-Grows :
      (io : Processing) (event : TransactionEvent F) (t : Tables F)
      → Grows t (persist codec io event t).1
  unfolding persist
  persist-Grows io event t =
      let logged = insert_log-Grows codec.times io.log_exec event t in
      elim (Result-cases (insert_log codec.times io.log_exec event t).0) [
        | inl (_, e) ↦
            rw (e, persist)
              (Grows-trans logged (insert_cost-Grows codec.times io.cost_exec io.now event _))
        | inr (m, e) ↦ rw (e, persist) logged
      ]

  pub after_persist-tables :
      (io : Processing) (event : TransactionEvent F) (st : State F)
      (r : Result (Unit {0}) × Tables F)
      → (after_persist codec io event st r).1.tables ≡ r.1
  after_persist-tables io event st (ok _, t) = refl
  after_persist-tables io event st (err e, t) = refl

  process_message-Grows :
      (io : Processing) (value : Text) (st : State F)
      → Grows st.tables (process_message codec io value st).1.tables
  unfolding process_message
  process_message-Grows io value st = elim (Result-cases (codec.unmarshal value)) [
    | inr (m, bad) ↦ rw (bad, process_message) (Grows-refl st.tables)
    | inl (event, good) ↦
        rw (good, process_message)
          (subst (Grows st.tables)
            (sym (after_persist-tables io event st (persist codec io event st.tables)))
            (persist-Grows io event st.tables))
  ]

  pub commit_if-tables :
      (committed : Bool) (position : ℕ) (r : Outcome × State F)
      → (commit_if codec committed position r).tables ≡ r.1.tables
  commit_if-tables true position (Consumer.done, st) = refl
  commit_if-tables false position (Consumer.done, st) = refl
  commit_if-tables committed position (Consumer.failed e, st) = refl
  commit_if-tables committed position (Consumer.panicked, st) = refl

  pub consume-Grows :
      (io : ℕ → Processing) (position : ℕ) (values : List Text) (st : State F)
      → Grows st.tables (consume codec io position values st).tables
  unfolding consume safe_process
  consume-Grows io position [] st = Grows-refl st.tables
  consume-Grows io position (value ∷ values) st =
      Grows-trans
        (subst (Grows st.tables)
          (sym (
            commit_if-tables (io position).committed position
              (process_message codec (io position) value st)))
          (process_message-Grows (io position) value st))
        (consume-Grows io (suc position) values
          (safe_process codec (io position) position value st))
