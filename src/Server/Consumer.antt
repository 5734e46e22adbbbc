-- ===== src/Server/Consumer.antt =====
-- internal/server/consumer/consumer.go, over one partition of the topic. The messages of the
-- partition are a list, and offsets count from 0; json is `unmarshal` and `marshal`. A fetch that
-- fails or times out is only repeated, and leaves no trace in a run.
pub mod Inserts
pub mod Redelivery
pub mod Skipping
use pangreksa_aigateway.Prelude.{
  ℕ, suc, Bool, true, false, List, [], ◌∷◌, ◌++◌, ◌==◌, if◌then◌else◌, Option, none, some, Result,
  ok, err, map_err, length,
}
use pangreksa_aigateway.Prelude.Texts.{Text, codes}
use pangreksa_aigateway.Model.Inquiry.{TransactionEvent}
use pangreksa_aigateway.Server.Repository.{Tables, Times, Exec, insert_log, insert_cost}
use pangreksa_aigateway.Server.Broadcaster.{Event, Broadcaster, Reader, broadcast}

-- The parameters of the code that is not the gateway's.
pub record Codec (F : Type 0) : Type 0 where
  pub times : Times
  pub unmarshal : Text → Result (TransactionEvent F)
  pub marshal : TransactionEvent F → Option Text

-- What happens while one message is processed: the two statements, the clock, the clients of the
-- broadcaster, and whether the commit of the offset succeeds.
pub record Processing : Type 0 where
  pub log_exec : Exec
  pub cost_exec : Exec
  pub now : ℕ
  pub readers : ℕ → Reader
  pub committed : Bool

-- The consumer's surroundings: the tables, the live clients if there is a broadcaster, and the
-- offset that Kafka holds for the group, which is where a new reader begins.
pub record State (F : Type 0) : Type 0 where
  pub tables : Tables F
  pub broadcaster : Option Broadcaster
  pub offset : ℕ

-- How the processing of a message ends.
pub data Outcome : Type 0 where
  done : Outcome
  failed : Text → Outcome
  panicked : Outcome

module _ {F : Type 0} (codec : Codec F) where
  abbrev pub panic_unless : Bool → Outcome
  panic_unless true = done
  panic_unless false = panicked

  -- The fan-out at the end of `processMessage`.
  unfoldable pub fan_out :
      Processing → TransactionEvent F → Option Broadcaster → Outcome × Option Broadcaster
  fan_out io event none = (done, none)
  fan_out io event (some b) = elim (codec.marshal event) [
    | none ↦ (done, some b)
    | some payload ↦
        let (fine, b') =
          broadcast (record { type = codes "transaction"; payload = payload }) io.readers b in
        (panic_unless fine, some b')
  ]

  unfoldable pub persist : Processing → TransactionEvent F → Tables F → Result (Unit {0}) × Tables F
  persist io event t =
      let (logged, t') = insert_log codec.times io.log_exec event t in
      let (costed, t'') = insert_cost codec.times io.cost_exec io.now event t' in
      elim logged [
        | err e ↦ (err (codes "processMessage: insert request_log: " ++ e), t')
        | ok _ ↦ (map_err (λ e. codes "processMessage: insert cost_record: " ++ e) costed, t'')
      ]

  abbrev after_persist :
      Processing → TransactionEvent F → State F → Result (Unit {0}) × Tables F → Outcome × State F
  after_persist io event st (err e, t) = (failed e, record st { tables = t })
  after_persist io event st (ok _, t) =
      let (outcome, b) = fan_out io event st.broadcaster in
      (outcome, record st { tables = t; broadcaster = b })

  unfoldable pub process_message : Processing → Text → State F → Outcome × State F
  process_message io value st = elim (codec.unmarshal value) [
    | err e ↦ (failed (codes "processMessage: unmarshal: " ++ e), st)
    | ok event ↦ after_persist io event st (persist io event st.tables)
  ]

  -- `safeProcess` for the message at this offset: the offset after it is committed if all went well.
  abbrev commit_if : Bool → ℕ → Outcome × State F → State F
  commit_if committed position (done, st) =
      if committed then record st { offset = suc position } else st
  commit_if committed position (failed e, st) = st
  commit_if committed position (panicked, st) = st

  unfoldable pub safe_process : Processing → ℕ → Text → State F → State F
  safe_process io position value st = commit_if io.committed position (process_message io value st)

  -- The loop of `Start` over the messages from this position on, until it is stopped.
  unfoldable pub consume : (ℕ → Processing) → ℕ → List Text → State F → State F
  consume io position [] st = st
  consume io position (value ∷ values) st =
      consume io (suc position) values (safe_process (io position) position value st)
