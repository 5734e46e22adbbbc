-- ===== src/Daemon/Producer/Drained.antt =====
-- producer.go: no event is lost while the queue has room and Kafka answers.
use mathlib.Core.List.{append_assoc, append-nil}
use pangreksa_aigateway.Prelude.{
  ℕ, ◌+◌, ◌*◌, ◌≤◌, ◌≡◌, refl, sym, ap, ◌∙◌, true, List, [], ◌∷◌, ◌++◌, ltb, Result, length,
  length-append, All, arith,
}
use pangreksa_aigateway.Prelude.Texts.{Text}
use pangreksa_aigateway.Model.Inquiry.{TransactionEvent}
use pangreksa_aigateway.Daemon.Producer.{
  queue_depth, max_retries, Topic, append, Producer, Attempts, new_producer, publish_async, publish,
  take_one, drain,
}
use pangreksa_aigateway.Daemon.Producer.Copies.{
  encoded_copies, told, works, AtMost, append-append, append-none, publish-copies,
}

module _ {F : Type 0} where
  -- The producer after these offers.
  unfoldable pub offer_all : List (TransactionEvent F) → Producer F → Producer F
  offer_all [] p = p
  offer_all (e ∷ es) p = offer_all es (publish_async e p)

  offer_all-queue :
      (es : List (TransactionEvent F)) (queue : List (TransactionEvent F))
      → length queue + length es ≤ queue_depth
      → offer_all es (record { queue = queue }) ≡ record { queue = queue ++ es }
  unfolding offer_all publish_async
  offer_all-queue [] queue h = ap (λ q. record { queue = q }) (sym (append-nil queue))
  offer_all-queue (e ∷ es) queue h =
      let room : ltb (length queue) queue_depth ≡ true = ground arith in
      rw (room, ← append_assoc queue (e ∷ []) es)
        (offer_all-queue es (queue ++ e ∷ []) (omega (arith, length-append queue (e ∷ []))))

module _ {F : Type 0} (marshal : TransactionEvent F → Result Text) (hash : Text → ℕ) (k : ℕ) where
  -- Each of these events is in the partition of its key, once to 3 * k times, after what was there.
  pub record Arrived (es : List (TransactionEvent F)) (before after : Topic) : Type 0 where
    pub counts : List ℕ
    pub paired : length counts ≡ length es
    pub arrive : All (λ n. (1 ≤ n) × (n ≤ max_retries * k)) counts
    pub topic : after ≡ append hash before (told marshal counts es)

  drain-Arrived :
      (io : ℕ → Attempts) (es : List (TransactionEvent F)) (topic : Topic)
      → ((i : ℕ) → AtMost k (io i))
      → ((i : ℕ) → works max_retries 1 (io i) ≡ true)
      → ((drain marshal hash (length es) io (record { queue = es }) topic).0 ≡ new_producer)
        × Arrived es topic (drain marshal hash (length es) io (record { queue = es }) topic).1
  unfolding drain take_one new_producer told
  drain-Arrived io [] topic bound h = (
    refl,
    record { counts = []; paired = refl; arrive = tt; topic = sym (append-none hash topic) },
  )
  drain-Arrived io (e ∷ es) topic bound h =
      let (n, few, least, sent) =
        publish-copies marshal hash k (io (length es)) e topic (bound (length es)) in
      let one : 1 ≤ n = ground (arith, h (length es)) in
      let topic' = (publish marshal hash (io (length es)) e topic).0 in
      let (empty, rest) = drain-Arrived io es topic' bound h in
      (
        empty,
        record {
          counts = n ∷ rest.counts;
          paired = omega (arith, rest.paired);
          arrive = ((one, few), rest.arrive);
          topic =
              rest.topic
              ∙ ap (λ t. append hash t (told marshal rest.counts es)) sent
              ∙ append-append hash topic (encoded_copies (marshal e) e.org_id n)
                  (told marshal rest.counts es);
        },
      )

  -- Up to 4096 events that are offered to a new producer before it is drained are all delivered, if
  -- for each of them some of its three attempts is acknowledged before the context ends, no call of
  -- WriteMessages leaves more than k copies, and the deadline leaves time for all: the queue is empty,
  -- and each partition holds the events of its keys that can be encoded, in the order of the offers,
  -- once to 3 * k times, after what it held.
  pub drain_delivers :
      (io : ℕ → Attempts) (es : List (TransactionEvent F)) (topic : Topic)
      → length es ≤ queue_depth
      → ((i : ℕ) → AtMost k (io i))
      → ((i : ℕ) → works max_retries 1 (io i) ≡ true)
      → ((drain marshal hash (length es) io (offer_all es new_producer) topic).0 ≡ new_producer)
        × Arrived es topic (drain marshal hash (length es) io (offer_all es new_producer) topic).1
  unfolding new_producer
  drain_delivers io es topic room bound h =
      rw (offer_all-queue es [] (omega arith)) (drain-Arrived io es topic bound h)
