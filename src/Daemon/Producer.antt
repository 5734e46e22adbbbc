-- ===== src/Daemon/Producer.antt =====
-- internal/producer/producer.go. The topic gives for each partition the messages that Kafka holds
-- there, the newest last. `hash` is kafka.Hash, the partition of a key; the number of partitions is
-- taken to stay. What becomes of each call of WriteMessages, and whether the context ends while a retry
-- is waited for, are arguments; json.Marshal is `marshal`.
pub mod Copies
pub mod Order
pub mod Drained
use pangreksa_aigateway.Prelude.{
  ℕ, zero, suc, ◌+◌, ◌*◌, Bool, true, false, ◌&&◌, List, [], ◌∷◌, ◌++◌, ltb, ◌==◌, if◌then◌else◌,
  Result, ok, err, length,
}
use pangreksa_aigateway.Prelude.Texts.{Text, codes, split, trim_space}
use pangreksa_aigateway.Model.Inquiry.{TransactionEvent}

abbrev pub queue_depth : ℕ
queue_depth = 4096

abbrev pub max_retries : ℕ
max_retries = 3

abbrev pub retry_delay : ℕ
retry_delay = 500_000_000

pub record Message : Type 0 where
  pub key : Text
  pub value : Text

pub record Producer (F : Type 0) : Type 0 where
  pub queue : List (TransactionEvent F)

-- What becomes of one call of WriteMessages. The writer has its default MaxAttempts, so the client
-- itself may send the message more than once in a call: the call succeeds, with so many copies besides
-- the acknowledged one, or it fails, having left so many copies. They are taken to reach the
-- partition before those of a later call.
pub data Write : Type 0 where
  acknowledged : ℕ → Write
  failed : ℕ → Write

-- The calls for one event, by attempt, and the waits that the end of the context cuts short.
pub record Attempts : Type 0 where
  pub write : ℕ → Write
  pub ends : ℕ → Bool

abbrev pub copies : Write → ℕ
copies (acknowledged n) = suc n
copies (failed n) = n

abbrev pub is_acknowledged : Write → Bool
is_acknowledged (acknowledged _) = true
is_acknowledged (failed _) = false

abbrev pub repeat : {A : Type 0} → ℕ → A → List A
repeat zero a = []
repeat (suc n) a = a ∷ repeat n a

abbrev pub Topic : Type 0
Topic = ℕ → List Message

-- The messages among these that belong in a partition.
abbrev pub in_partition : (Text → ℕ) → ℕ → List Message → List Message
in_partition hash p [] = []
in_partition hash p (m ∷ ms) =
    let rest = in_partition hash p ms in if hash m.key == p then m ∷ rest else rest

-- The topic with these messages at the ends of their partitions.
unfoldable pub append : (Text → ℕ) → Topic → List Message → Topic
append hash topic ms p = topic p ++ in_partition hash p ms

module _ {F : Type 0} where
  unfoldable pub new_producer : Producer F
  new_producer = record { queue = [] }

  unfoldable pub publish_async : TransactionEvent F → Producer F → Producer F
  publish_async event p =
      if ltb (length p.queue) queue_depth then record { queue = p.queue ++ event ∷ [] } else p

-- The loop of `publish` from attempt `i` on, with `left` attempts to go; the time waited comes
-- back with the topic.
unfoldable pub retry : (Text → ℕ) → ℕ → ℕ → ℕ → Attempts → Message → Topic → Topic × ℕ
retry hash zero i delay io msg topic = (topic, 0)
retry hash (suc left) i delay io msg topic =
    let topic' = append hash topic (repeat (copies (io.write i)) msg) in
    let (topic'', waited) = retry hash left (suc i) (delay * 2) io msg topic' in
    if is_acknowledged (io.write i)
    then (topic', 0)
    else if ltb 0 left && io.ends i
    then (topic', 0)
    else (topic'', if ltb 0 left then delay + waited else waited)

-- One step of the producer: a caller offers an event, or the goroutine takes one.
pub data Call (F : Type 0) : Type 0 where
  offers : TransactionEvent F → Call F
  takes : Attempts → Call F

module _ {F : Type 0} (marshal : TransactionEvent F → Result Text) (hash : Text → ℕ) where
  abbrev pub send_encoded : Result Text → Text → Attempts → Topic → Topic × ℕ
  send_encoded (err e) org_id io topic = (topic, 0)
  send_encoded (ok encoded) org_id io topic =
      retry hash max_retries 1 retry_delay io (record { key = org_id; value = encoded }) topic

  unfoldable pub publish : Attempts → TransactionEvent F → Topic → Topic × ℕ
  publish io event topic = send_encoded (marshal event) event.org_id io topic

  -- The background goroutine takes one event off the queue and publishes it, if there is one.
  unfoldable pub take_one : Attempts → Producer F → Topic → Producer F × Topic
  take_one io p topic = elim p.queue [
    | [] ↦ (p, topic)
    | event ∷ queue ↦ (record { queue = queue }, (publish io event topic).0)
  ]

  -- `drain`, where `rounds` events are taken before its deadline.
  unfoldable pub drain : ℕ → (ℕ → Attempts) → Producer F → Topic → Producer F × Topic
  drain zero io p topic = (p, topic)
  drain (suc rounds) io p topic =
      let (p', topic') = take_one (io rounds) p topic in drain rounds io p' topic'

  unfoldable pub step : Call F → Producer F × Topic → Producer F × Topic
  step (offers event) (p, topic) = (publish_async event p, topic)
  step (takes io) (p, topic) = take_one io p topic

  unfoldable pub run : List (Call F) → Producer F × Topic → Producer F × Topic
  run [] s = s
  run (c ∷ cs) s = run cs (step c s)

-- The loop of `parseBrokers`.
unfoldable pub non_blank : List Text → List Text
non_blank [] = []
non_blank (part ∷ parts) =
    let rest = non_blank parts in
    let t = trim_space part in if ltb 0 (length t) then t ∷ rest else rest

unfoldable pub parse_brokers : Text → List Text
parse_brokers s = non_blank (split b',' s)

-- The part of `NewProducer` before the writer is set up: the brokers that it is given.
unfoldable pub broker_list : Text → Text → Result (List Text)
broker_list brokers topic =
    if length (trim_space brokers) == 0
    then err (codes "producer.NewProducer: brokers must not be empty")
    else if length (trim_space topic) == 0
    then err (codes "producer.NewProducer: topic must not be empty")
    else ok (parse_brokers brokers)
