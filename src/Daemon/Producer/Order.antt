-- ===== src/Daemon/Producer/Order.antt =====
-- producer.go: what arrives at the partitions of the topic, and in which order.
use mathlib.Core.List.{append_assoc, append-nil}
use pangreksa_aigateway.Prelude.{
  ℕ, ◌≤◌, ◌≡◌, refl, sym, ap, ◌∙◌, Sublist, Sublist-snoc, Sublist-skip_last, done, ◌*◌, List, [],
  ◌∷◌, ◌++◌, ltb, Result, length, length-append, All, arith, inl, inr, Bool-cases,
}
use pangreksa_aigateway.Prelude.Texts.{Text}
use pangreksa_aigateway.Model.Inquiry.{TransactionEvent}
use pangreksa_aigateway.Daemon.Producer.{
  queue_depth, max_retries, Producer, Attempts, Topic, append, new_producer, publish_async,
  take_one, Call, offers, takes, step, run,
}
use pangreksa_aigateway.Daemon.Producer.Copies.{
  AtMost, told, encoded_copies, append-append, told-snoc, publish-copies,
}

All-snoc : (P : ℕ → Type 0) (ns : List ℕ) (n : ℕ) → All P ns → P n → All P (ns ++ n ∷ [])
All-snoc P [] n h p = (p, tt)
All-snoc P (m ∷ ns) n h p = (h.0, All-snoc P ns n h.1 p)

module _ {F : Type 0} where
  abbrev pub offered_by : List (Call F) → List (TransactionEvent F)
  offered_by [] = []
  offered_by (offers event ∷ cs) = event ∷ offered_by cs
  offered_by (takes io ∷ cs) = offered_by cs

  -- The calls of WriteMessages in a run leave so many copies at most.
  abbrev pub AllAtMost : ℕ → List (Call F) → Type 0
  AllAtMost k [] = Unit {0}
  AllAtMost k (offers event ∷ cs) = AllAtMost k cs
  AllAtMost k (takes io ∷ cs) = AtMost k io × AllAtMost k cs

module _ {F : Type 0} (marshal : TransactionEvent F → Result Text) (hash : Text → ℕ) (k : ℕ) where
  -- What the topic and the queue hold, against the events offered so far.
  pub record Account (offered : List (TransactionEvent F)) (s : Producer F × Topic) : Type 0 where
    pub taken : List (TransactionEvent F)
    pub counts : List ℕ
    pub paired : length counts ≡ length taken
    pub few : All (λ n. n ≤ max_retries * k) counts
    pub topic : s.1 ≡ append hash (λ p. []) (told marshal counts taken)
    pub in_order : Sublist (taken ++ s.0.queue) offered
    pub bounded : length s.0.queue ≤ queue_depth

  publish_async-Account :
      (offered : List (TransactionEvent F)) (event : TransactionEvent F) (p : Producer F)
      (topic : Topic)
      → Account offered (p, topic)
      → Account (offered ++ event ∷ []) (publish_async event p, topic)
  unfolding publish_async
  publish_async-Account offered event p topic acc =
      elim (Bool-cases (ltb (length p.queue) queue_depth)) [
        | inl room ↦ rw room (record {
          taken = acc.taken;
          counts = acc.counts;
          paired = acc.paired;
          few = acc.few;
          topic = acc.topic;
          in_order =
              rw (← append_assoc acc.taken p.queue (event ∷ [])) (Sublist-snoc event acc.in_order);
          bounded = ground (arith, length-append p.queue (event ∷ []));
        })
        | inr full ↦ rw full (record {
          taken = acc.taken;
          counts = acc.counts;
          paired = acc.paired;
          few = acc.few;
          topic = acc.topic;
          in_order = Sublist-skip_last event acc.in_order;
          bounded = acc.bounded;
        })
      ]

  take_one-Account :
      (offered : List (TransactionEvent F)) (io : Attempts) (queue : List (TransactionEvent F))
      (topic : Topic)
      → AtMost k io
      → Account offered (record { queue = queue }, topic)
      → Account offered (take_one marshal hash io (record { queue = queue }) topic)
  unfolding take_one
  take_one-Account offered io [] topic h acc = acc
  take_one-Account offered io (event ∷ queue) topic h acc =
      let (n, few, _, e) = publish-copies marshal hash k io event topic h in
      record {
        taken = acc.taken ++ event ∷ [];
        counts = acc.counts ++ n ∷ [];
        paired = omega (
          arith,
          acc.paired,
          length-append acc.taken (event ∷ []),
          length-append acc.counts (n ∷ []),
        );
        few = All-snoc (λ c. c ≤ max_retries * k) acc.counts n acc.few few;
        topic =
            e
            ∙ ap (λ t. append hash t (encoded_copies (marshal event) event.org_id n)) acc.topic
            ∙ append-append hash (λ p. []) (told marshal acc.counts acc.taken)
                (encoded_copies (marshal event) event.org_id n)
            ∙ ap (append hash (λ p. []))
                (sym (told-snoc marshal acc.counts acc.taken n event acc.paired));
        in_order = rw (append_assoc acc.taken (event ∷ []) queue) acc.in_order;
        bounded = omega (arith, acc.bounded);
      }

  run-Account_from :
      (offered : List (TransactionEvent F)) (cs : List (Call F)) (p : Producer F) (topic : Topic)
      → AllAtMost k cs
      → Account offered (p, topic)
      → Account (offered ++ offered_by cs) (run marshal hash cs (p, topic))
  unfolding run step
  run-Account_from offered [] p topic h acc = rw (append-nil offered) acc
  run-Account_from offered (offers event ∷ cs) p topic h acc =
      rw (← append_assoc offered (event ∷ []) (offered_by cs)) (
        run-Account_from (offered ++ event ∷ []) cs (publish_async event p) topic h
          (publish_async-Account offered event p topic acc))
  run-Account_from offered (takes io ∷ cs) p topic h acc =
      let (p', topic') = take_one marshal hash io p topic in
      run-Account_from offered cs p' topic' h.1 (take_one-Account offered io p.queue topic h.0 acc)

  -- Let callers offer events to a new producer while its goroutine publishes, in any order of the
  -- steps and with any failures of Kafka, where no call of WriteMessages leaves more than k copies of
  -- its message (kafka-go's default is at most 10 tries a call). The queue never holds more than 4096
  -- events. Each partition holds the messages of its keys among the events that were taken, in the
  -- order in which they were taken, each at most 3 * k times and none if the event cannot be encoded;
  -- and the events taken, followed by those that still wait, are the offered ones in their order with
  -- some left out.
  pub run-Account :
      (cs : List (Call F))
      → AllAtMost k cs
      → Account (offered_by cs) (run marshal hash cs (new_producer, λ p. []))
  unfolding new_producer told append
  run-Account cs h =
      run-Account_from [] cs (record { queue = [] }) (λ p. []) h
        (record {
          taken = [];
          counts = [];
          paired = refl;
          few = tt;
          topic = refl;
          in_order = done;
          bounded = omega arith;
        })
