-- ===== src/Daemon/Producer/Copies.antt =====
-- producer.go: the copies of a message that the retries of `publish` leave in its partition.
use native.Mathlib.Nat.{zero-add, suc-add, suc-mul}
use mathlib.Core.Path.{fun_ext}
use mathlib.Core.List.{append_assoc, append-nil}
use pangreksa_aigateway.Prelude.{
  ℕ, zero, suc, ◌+◌, ◌≤◌, ◌≡◌, refl, sym, ap, ◌∙◌, ◌*◌, Bool, true, false, ◌&&◌, List, [], ◌∷◌,
  ◌++◌, ltb, if◌then◌else◌, Result, ok, err, length, arith, inl, inr, Bool-cases, Result-cases,
}
use pangreksa_aigateway.Prelude.Texts.{Text}
use pangreksa_aigateway.Model.Inquiry.{TransactionEvent}
use pangreksa_aigateway.Daemon.Producer.{
  max_retries, retry_delay, Message, Write, acknowledged, failed, Attempts, copies, is_acknowledged,
  repeat, Topic, in_partition, append, retry, publish,
}

-- The messages of some copies of an event: none if it cannot be encoded.
abbrev pub encoded_copies : Result Text → Text → ℕ → List Message
encoded_copies (err e) org_id n = []
encoded_copies (ok encoded) org_id n = repeat n (record { key = org_id; value = encoded })

module _ {F : Type 0} (marshal : TransactionEvent F → Result Text) where
  -- The messages of these events in their order, each as often as its count says.
  unfoldable pub told : List ℕ → List (TransactionEvent F) → List Message
  told (n ∷ ns) (e ∷ es) = encoded_copies (marshal e) e.org_id n ++ told ns es
  told _ _ = []

in_partition-append :
    (hash : Text → ℕ) (p : ℕ) (ms ns : List Message)
    → in_partition hash p (ms ++ ns) ≡ in_partition hash p ms ++ in_partition hash p ns
in_partition-append hash p [] ns = refl
in_partition-append hash p (m ∷ ms) ns = ground (arith, in_partition-append hash p ms ns)

pub append-append :
    (hash : Text → ℕ) (topic : Topic) (ms ns : List Message)
    → append hash (append hash topic ms) ns ≡ append hash topic (ms ++ ns)
unfolding append
append-append hash topic ms ns = fun_ext (λ p.
    append_assoc (topic p) (in_partition hash p ms) (in_partition hash p ns)
    ∙ ap (λ t. topic p ++ t) (sym (in_partition-append hash p ms ns)))

pub append-none : (hash : Text → ℕ) (topic : Topic) → append hash topic [] ≡ topic
unfolding append
append-none hash topic = fun_ext (λ p. append-nil (topic p))

repeat-append : (m n : ℕ) (msg : Message) → repeat m msg ++ repeat n msg ≡ repeat (m + n) msg
repeat-append zero n msg = rw zero-add
repeat-append (suc m) n msg = rw suc-add (ap (◌∷◌ msg) (repeat-append m n msg))

acknowledged_arrives : (w : Write) → is_acknowledged w ≡ true → 1 ≤ copies w
acknowledged_arrives (acknowledged n) h = omega arith
acknowledged_arrives (failed n) h = cc

-- No call of WriteMessages leaves more than so many copies.
abbrev pub AtMost : ℕ → Attempts → Type 0
AtMost k io = (i : ℕ) → copies (io.write i) ≤ k

-- Some attempt is acknowledged, before the context ends.
unfoldable pub works : ℕ → ℕ → Attempts → Bool
works zero i io = false
works (suc left) i io =
    let rest = works left (suc i) io in
    if is_acknowledged (io.write i) then true else if io.ends i then false else rest

-- A retried call leaves copies of its message in the partition: not more than its attempts may leave,
-- and at least one if some attempt is acknowledged.
retry-repeat :
    (hash : Text → ℕ) (k left i delay : ℕ) (io : Attempts) (msg : Message) (topic : Topic)
    → AtMost k io
    → (n : ℕ) × (n ≤ left * k)
      × ((if works left i io then 1 else 0) ≤ n)
      × ((retry hash left i delay io msg topic).0 ≡ append hash topic (repeat n msg))
unfolding retry works
retry-repeat hash k zero i delay io msg topic h =
    (0, omega arith, omega arith, sym (append-none hash topic))
retry-repeat hash k (suc left) i delay io msg topic h =
    let a = copies (io.write i) in
    let within : a ≤ k = h i in
    let product = suc-mul left k in
    let once = append hash topic (repeat a msg) in
    let (m, few, least, e) = retry-repeat hash k left (suc i) (delay * 2) io msg once h in
    let more =
      e
      ∙ append-append hash topic (repeat a msg) (repeat m msg)
      ∙ ap (append hash topic) (repeat-append a m msg) in
    elim (Bool-cases (is_acknowledged (io.write i))) [
      | inl good ↦
          (a, omega (arith, product), ground (arith, acknowledged_arrives (io.write i)), rw good)
      | inr bad ↦ elim (Bool-cases (ltb 0 left && io.ends i)) [
        | inl ended ↦ (a, omega (arith, product), ground arith, rw (bad, ended))
        | inr waits ↦ (a + m, omega (arith, product), ground arith, rw (bad, waits) more)
      ]
    ]

-- An attempt that is acknowledged leaves a copy.
works-copies :
    (k left i : ℕ) (io : Attempts) → AtMost k io → (if works left i io then 1 else 0) ≤ left * k
unfolding works
works-copies k zero i io h = omega arith
works-copies k (suc left) i io h = ground (
  arith,
  acknowledged_arrives (io.write i),
  h i,
  suc-mul left k,
  works-copies k left (suc i) io h,
)

module _ {F : Type 0} (marshal : TransactionEvent F → Result Text) where
  pub told-snoc :
      (ns : List ℕ) (es : List (TransactionEvent F)) (n : ℕ) (e : TransactionEvent F)
      → length ns ≡ length es
      → told marshal (ns ++ n ∷ []) (es ++ e ∷ [])
        ≡ told marshal ns es ++ encoded_copies (marshal e) e.org_id n
  unfolding told
  told-snoc [] [] n e h = append-nil _
  told-snoc [] (x ∷ es) n e h = absurd (omega arith)
  told-snoc (m ∷ ns) [] n e h = absurd (omega arith)
  told-snoc (m ∷ ns) (x ∷ es) n e h =
      ap (λ t. encoded_copies (marshal x) x.org_id m ++ t) (told-snoc ns es n e (omega arith))
      ∙ sym (append_assoc (encoded_copies (marshal x) x.org_id m) (told marshal ns es) _)

module _ {F : Type 0} (marshal : TransactionEvent F → Result Text) (hash : Text → ℕ) (k : ℕ) where
  pub publish-copies :
      (io : Attempts) (event : TransactionEvent F) (topic : Topic)
      → AtMost k io
      → (n : ℕ) × (n ≤ max_retries * k)
        × ((if works max_retries 1 io then 1 else 0) ≤ n)
        × ((publish marshal hash io event topic).0
            ≡ append hash topic (encoded_copies (marshal event) event.org_id n))
  unfolding publish
  publish-copies io event topic h = elim (Result-cases (marshal event)) [
    | inl (encoded, e) ↦ rw e (
        retry-repeat hash k max_retries 1 retry_delay io
          (record { key = event.org_id; value = encoded }) topic h)
    | inr (m, e) ↦ (
      if works max_retries 1 io then 1 else 0,
      works-copies k max_retries 1 io h,
      omega arith,
      rw e (sym (append-none hash topic)),
    )
  ]
