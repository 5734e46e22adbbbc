-- ===== src/Server/Consumer/Redelivery.antt =====
-- consumer.go: at-least-once delivery over inserts that do nothing on a conflict.
use pangreksa_aigateway.Prelude.{
  ℕ, ◌≡◌, ◌≢◌, refl, sym, ap, ◌∙◌, Bool, true, ◌&&◌, List, ◌++◌, ◌==◌, some, ok, err, any, arith,
  inl, inr, Bool-cases, Option-cases, Result-cases,
}
use mathlib.Core.Path.{subst}
use pangreksa_aigateway.Prelude.Texts.{Text, codes, text_eq, text_eq_refl}
use pangreksa_aigateway.Prelude.Actions.{map_err-ok}
use pangreksa_aigateway.Model.Inquiry.{TransactionEvent}
use pangreksa_aigateway.Server.Repository.{
  LogRow, CostRow, Tables, Exec, executed, failed, exec_result, is_executed, log_row, cost_row,
  same_log, same_cost, insert_log, insert_cost,
}
use pangreksa_aigateway.Server.Repository.Keys.{insert_new-any, insert_new_again}
use pangreksa_aigateway.Server.Consumer.{
  Codec, Processing, State, Outcome, fan_out, after_persist, persist, process_message, consume,
}
use pangreksa_aigateway.Server.Consumer
use pangreksa_aigateway.Server.Consumer.Inserts.{
  Grows, after_persist-tables, consume-Grows, insert_cost-Grows,
}

exec_result-ok : (method : Text) (x : Exec) → exec_result method x ≡ ok tt → is_executed x ≡ true
exec_result-ok method executed h = refl
exec_result-ok method (failed e arrived) h = cc

module _ {F : Type 0} (codec : Codec F) where
  abbrev is_log_of : ℕ → TransactionEvent F → LogRow F → Bool
  is_log_of instant event row = text_eq row.id event.request_id && row.created_at == instant

  abbrev is_cost_of : TransactionEvent F → CostRow F → Bool
  is_cost_of event row = text_eq row.request_log_id event.request_id

  -- The tables hold the rows of the event.
  pub record IsPersisted (event : TransactionEvent F) (t : Tables F) : Type 0 where
    pub instant : ℕ
    pub read : codec.times.read_timestamp event.created_at ≡ some instant
    pub logged : any (is_log_of instant event) t.request_logs ≡ true
    pub costed : any (is_cost_of event) t.cost_records ≡ true

  IsPersisted-Grows :
      (event : TransactionEvent F) {t t' : Tables F}
      → Grows t t'
      → IsPersisted event t
      → IsPersisted event t'
  IsPersisted-Grows event g p = record {
    instant = p.instant;
    read = p.read;
    logged = g.logs (is_log_of p.instant event) p.logged;
    costed = g.costs (is_cost_of event) p.costed;
  }

  -- What a successful insert into request_logs says.
  insert_log-ok :
      (x : Exec) (event : TransactionEvent F) (t : Tables F)
      → (insert_log codec.times x event t).0 ≡ ok tt
      → (instant : ℕ) × (codec.times.read_timestamp event.created_at ≡ some instant)
        × (any (is_log_of instant event) (insert_log codec.times x event t).1.request_logs ≡ true)
  unfolding insert_log log_row
  insert_log-ok x event t h = elim (Option-cases (codec.times.read_timestamp event.created_at)) [
    | inl bad ↦ absurd (cc (h, bad))
    | inr (instant, good) ↦
        let here : is_executed x ≡ true =
          exec_result-ok (codes "RequestLogRepository.Insert") x (rw (good, insert_log) at h) in
        (
          instant,
          good,
          rw (good, insert_log, here)
              (insert_new-any same_log (log_row instant event) t.request_logs
                (ground (arith, text_eq_refl event.request_id))),
        )
  ]

  insert_cost-ok :
      (x : Exec) (now : ℕ) (event : TransactionEvent F) (t : Tables F)
      → (insert_cost codec.times x now event t).0 ≡ ok tt
      → any (is_cost_of event) (insert_cost codec.times x now event t).1.cost_records ≡ true
  unfolding insert_cost cost_row
  insert_cost-ok x now event t h =
      let here : is_executed x ≡ true = exec_result-ok (codes "CostRecordRepository.Insert") x h in
      rw here (
        insert_new-any same_cost (cost_row codec.times now event) t.cost_records
          (text_eq_refl event.request_id))

  persist-IsPersisted :
      (io : Processing) (event : TransactionEvent F) (t : Tables F)
      → (persist codec io event t).0 ≡ ok tt
      → IsPersisted event (persist codec io event t).1
  unfolding persist
  persist-IsPersisted io event t h =
      elim (Result-cases (insert_log codec.times io.log_exec event t).0) [
        | inr (m, e) ↦ absurd (cc (h, e))
        | inl (_, e) ↦
            let t' = (insert_log codec.times io.log_exec event t).1 in
            let (instant, good, logged) = insert_log-ok io.log_exec event t e in
            rw (e, persist)
              (record {
                instant = instant;
                read = good;
                logged =
                    (insert_cost-Grows codec.times io.cost_exec io.now event t').logs
                      (is_log_of instant event) logged;
                costed =
                    insert_cost-ok io.cost_exec io.now event t'
                      (map_err-ok _ _ tt (rw (e, persist) at h));
              })
      ]

  -- A persisted event is persisted once: another attempt changes no table, whatever the database
  -- answers this time.
  insert_log_again :
      (x : Exec) (event : TransactionEvent F) (t : Tables F)
      → IsPersisted event t
      → (insert_log codec.times x event t).1 ≡ t
  unfolding insert_log log_row
  insert_log_again x event t p = elim (Bool-cases (is_executed x)) [
    | inl here ↦
        rw (p.read, insert_log, here)
          (ap (λ rows. record t { request_logs = rows })
            (insert_new_again same_log (log_row p.instant event) t.request_logs p.logged))
    | inr lost ↦ rw (p.read, insert_log, lost)
  ]

  insert_cost_again :
      (x : Exec) (now : ℕ) (event : TransactionEvent F) (t : Tables F)
      → IsPersisted event t
      → (insert_cost codec.times x now event t).1 ≡ t
  unfolding insert_cost cost_row
  insert_cost_again x now event t p = elim (Bool-cases (is_executed x)) [
    | inl here ↦ rw here (
        ap (λ rows. record t { cost_records = rows })
          (insert_new_again same_cost (cost_row codec.times now event) t.cost_records p.costed))
    | inr lost ↦ rw lost
  ]

  persist_again :
      (io : Processing) (event : TransactionEvent F) (t : Tables F)
      → IsPersisted event t
      → (persist codec io event t).1 ≡ t
  unfolding persist
  persist_again io event t p =
      let same = insert_log_again io.log_exec event t p in
      elim (Result-cases (insert_log codec.times io.log_exec event t).0) [
        | inl (_, e) ↦
            rw (e, persist)
              (ap (λ v. (insert_cost codec.times io.cost_exec io.now event v).1) same
                ∙ insert_cost_again io.cost_exec io.now event t p)
        | inr (m, e) ↦ rw (e, persist) same
      ]

  -- After a processing that reports no error the tables hold the rows of the event.
  process_message-IsPersisted :
      (io : Processing) (value : Text) (st : State F) (event : TransactionEvent F)
      → codec.unmarshal value ≡ ok event
      → ((e : Text) → (process_message codec io value st).0 ≢ Consumer.failed e)
      → IsPersisted event (process_message codec io value st).1.tables
  unfolding process_message
  process_message-IsPersisted io value st event good fine =
      elim (Result-cases (persist codec io event st.tables).0) [
        | inr (m, e) ↦ absurd (fine m (rw (good, process_message, e)))
        | inl (_, e) ↦
            rw (good, process_message)
              (subst (IsPersisted event)
                (sym (after_persist-tables codec io event st (persist codec io event st.tables)))
                (persist-IsPersisted io event st.tables e))
      ]

  process_message_known :
      (io : Processing) (value : Text) (st : State F) (event : TransactionEvent F)
      → codec.unmarshal value ≡ ok event
      → IsPersisted event st.tables
      → (process_message codec io value st).1.tables ≡ st.tables
  unfolding process_message
  process_message_known io value st event good p =
      rw (good, process_message)
        (after_persist-tables codec io event st (persist codec io event st.tables)
          ∙ persist_again io event st.tables p)

  unreadable_fails :
      (io : Processing) (value : Text) (st : State F) (m : Text)
      → codec.unmarshal value ≡ err m
      → (process_message codec io value st).0
        ≡ Consumer.failed (codes "processMessage: unmarshal: " ++ m)
  unfolding process_message
  unreadable_fails io value st m bad = rw (bad, process_message)

  -- Delivery may be repeated: once a message has been processed without an error, processing it
  -- again changes neither table, whatever messages came between, and whatever the database, the
  -- clock and the clients of the broadcaster do this time and did before.
  pub process_message_again :
      (io io' : Processing) (ios : ℕ → Processing) (position : ℕ) (value : Text)
      (between : List Text) (st : State F)
      → ((e : Text) → (process_message codec io value st).0 ≢ Consumer.failed e)
      → (process_message codec io' value
          (consume codec ios position between (process_message codec io value st).1)).1.tables
        ≡ (consume codec ios position between (process_message codec io value st).1).tables
  process_message_again io io' ios position value between st fine =
      elim (Result-cases (codec.unmarshal value)) [
        | inr (m, bad) ↦ absurd (fine _ (unreadable_fails io value st m bad))
        | inl (event, good) ↦ process_message_known io' value _ event good (
            IsPersisted-Grows event
              (consume-Grows codec ios position between (process_message codec io value st).1)
              (process_message-IsPersisted io value st event good fine))
      ]
