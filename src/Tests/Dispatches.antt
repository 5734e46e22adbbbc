-- ===== src/Tests/Dispatches.antt =====
-- Runs of the dispatcher and of the encryption of keys.
use pangreksa_aigateway.Prelude.{
  ℕ, zero, suc, ◌*◌, ◌≡◌, refl, ap, leb, false, List, [], ◌∷◌, ◌++◌, arith, if◌then◌else◌, ok, err,
  length, length-append,
}
use pangreksa_aigateway.Prelude.Texts.{Text, codes, text_eq}
use pangreksa_aigateway.Prelude.Dict.{lookup, insert}
use pangreksa_aigateway.Crypto.{Bytes, Aead, encrypt, decrypt}
use pangreksa_aigateway.Crypto.RoundTrip.{decrypt-encrypt}
use pangreksa_aigateway.Llm.Breaker.{
  new_circuit_breaker, get_or_create, store, allow, allow_switch, on_failure, record_failure,
  prune_failures, Call, allows, fails, step, run,
}
use pangreksa_aigateway.Llm.Breaker.Views.{state_of}
use pangreksa_aigateway.Llm.Dispatcher
use pangreksa_aigateway.Llm.Dispatcher.{
  Dispatcher, responded, Surroundings, build_body, send, dispatch,
}
use pangreksa_aigateway.Llm.Dispatcher.Outcomes.{
  outcome_calls, cb-dispatch, Answers, dispatch-Answers, dispatch_refused,
}
use pangreksa_aigateway.Tests.Instances.{plain, inquiry}

-- A cipher that only adds a tag of sixteen zeros.
abbrev tag : Bytes
tag = 0 ∷ 0 ∷ 0 ∷ 0 ∷ 0 ∷ 0 ∷ 0 ∷ 0 ∷ 0 ∷ 0 ∷ 0 ∷ 0 ∷ 0 ∷ 0 ∷ 0 ∷ 0 ∷ []

-- Without its last sixteen bytes.
untag : Bytes → Bytes
untag [] = []
untag (b ∷ s) = let rest = untag s in if leb (length s) 15 then [] else b ∷ rest

untag-append : (s : Bytes) → untag (s ++ tag) ≡ s
unfolding untag
untag-append [] = refl
untag-append (b ∷ s) =
    let long : leb (length (s ++ tag)) 15 ≡ false = ground (arith, length-append s tag) in
    rw (long, untag-append s)

cipher : Aead
cipher = record {
  seal = λ key nonce plaintext. plaintext ++ tag;
  open_sealed = λ key nonce sealed. ok (untag sealed);
  length-seal = λ key nonce plaintext. length-append plaintext tag;
  open_sealed-seal = λ key nonce plaintext _ _. ap ok (untag-append plaintext);
}

abbrev zeros : ℕ → Bytes
zeros zero = []
zeros (suc n) = 0 ∷ zeros n

decrypt-encrypt_example :
    (c : Bytes) × (encrypt plain cipher (ok (zeros 12)) (zeros 32) (codes "sk-1") ≡ ok c)
    × (decrypt plain cipher (zeros 32) c ≡ ok (codes "sk-1"))
decrypt-encrypt_example =
    decrypt-encrypt plain cipher (zeros 32) (zeros 12) (codes "sk-1") refl refl

abbrev second : ℕ
second = 1_000_000_000

abbrev open_ai : Text
open_ai = codes "openai"

abbrev dispatcher : List Call → Dispatcher
dispatcher history = record {
  providers = (open_ai, record { base_url = codes "https://host"; api_key = codes "sk-1" }) ∷ [];
  crypto_key = [];
  cb = run new_circuit_breaker history;
}

abbrev answering : Surroundings ℕ
answering = record {
  marshal = λ payload. ok (codes "{}");
  server = λ request. responded 200 (codes "hello");
}

abbrev overloaded : Surroundings ℕ
overloaded = record {
  marshal = λ payload. ok (codes "{}");
  server = λ request. responded 503 (codes "busy");
}

abbrev failures : List Call
failures =
    fails second open_ai
    ∷ fails (2 * second) open_ai
    ∷ fails (3 * second) open_ai
    ∷ fails (4 * second) open_ai
    ∷ []

cb-dispatch_example :
    (dispatch plain (5 * second) (6 * second) overloaded (dispatcher failures) inquiry).1
    ≡ record (dispatcher failures) {
      cb = run (dispatcher failures).cb (
          allows (5 * second) open_ai
          ∷ (if (allow (5 * second) open_ai (dispatcher failures).cb).0
              then outcome_calls
                  (6 * second)
                  open_ai
                  (dispatch plain
                    (5 * second)
                    (6 * second)
                    overloaded
                    (dispatcher failures)
                    inquiry).0
              else []));
    }
cb-dispatch_example =
    cb-dispatch plain (5 * second) (6 * second) overloaded (dispatcher failures) inquiry

answered :
    (dispatch plain (5 * second) (6 * second) answering (dispatcher []) inquiry).0
    ≡ ok (codes "hello")
unfolding dispatch send Dispatcher.read_reply build_body allow allow_switch run step get_or_create
    new_circuit_breaker lookup text_eq
answered = refl

dispatch-Answers_example :
    Answers plain (5 * second) answering (dispatcher []) inquiry (codes "hello")
dispatch-Answers_example =
    dispatch-Answers plain (5 * second) (6 * second) answering (dispatcher []) inquiry
      (codes "hello") answered

abbrev outage : List Call
outage = failures ++ fails (6 * second) open_ai ∷ []

dispatch_refused_example :
    ((dispatch plain (7 * second) (8 * second) answering (dispatcher outage) inquiry).0
      ≡ err (
          codes "dispatcher.Dispatch: provider="
          ++ (plain.quote open_ai ++ codes ": circuit breaker open")))
    × (state_of
          (dispatch plain (7 * second) (8 * second) answering (dispatcher outage) inquiry).1.cb
          open_ai
        ≡ state_of (dispatcher outage).cb open_ai)
unfolding run step record_failure on_failure prune_failures get_or_create store new_circuit_breaker
    state_of lookup insert text_eq
dispatch_refused_example =
    dispatch_refused plain (7 * second) (8 * second) answering (dispatcher outage) inquiry refl
      (omega arith)
