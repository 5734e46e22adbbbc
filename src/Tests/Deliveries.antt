-- ===== src/Tests/Deliveries.antt =====
-- Runs of the producer, the probe, and the consumer of the events.
use pangreksa_aigateway.Prelude.{
  ℕ, ◌≡◌, refl, true, false, List, [], ◌∷◌, ◌++◌, ◌==◌, none, some, Result, ok, err, length, arith,
  inr, if◌then◌else◌, ◌&&◌,
}
use pangreksa_aigateway.Prelude.Texts.{Text, codes}
use pangreksa_aigateway.Prelude.Int.{pos}
use pangreksa_aigateway.Model.Inquiry.{TransactionEvent}
use pangreksa_aigateway.Daemon.Producer
use pangreksa_aigateway.Daemon.Producer.{
  Call, offers, takes, Attempts, acknowledged, max_retries, drain, new_producer, queue_depth,
}
use pangreksa_aigateway.Daemon.Producer.Copies.{works, AtMost}
use pangreksa_aigateway.Daemon.Producer.Order.{Account, offered_by, run-Account}
use pangreksa_aigateway.Daemon.Producer.Drained.{offer_all, Arrived, drain_delivers}
use pangreksa_aigateway.Daemon.Probe
use pangreksa_aigateway.Daemon.Probe.{Prober, Outside, responded, check}
use pangreksa_aigateway.Daemon.Probe.Attempts.{Ended, run-Ended, ReachedAt, Succeeds, run-Succeeds}
use pangreksa_aigateway.Server.Repository.{executed, insert_log, insert_cost}
use pangreksa_aigateway.Server.Broadcaster.{reads}
use pangreksa_aigateway.Server.Consumer
use pangreksa_aigateway.Server.Consumer.{
  Codec, Processing, State, process_message, consume, persist, fan_out,
}
use pangreksa_aigateway.Server.Consumer.Redelivery.{process_message_again}
use pangreksa_aigateway.Server.Consumer.Skipping.{is_done, consume-offset}
use pangreksa_aigateway.Tests.Instances.{plain}

abbrev event : Text → TransactionEvent ℕ
event request_id = record {
  event_id = codes "e1";
  request_id = request_id;
  gateway_id = codes "g1";
  org_id = codes "acme";
  user_id = codes "alice";
  provider = codes "openai";
  model = codes "gpt-4o";
  status = codes "success";
  latency_ms = 120;
  ttft_ms = 0;
  input_tokens = pos 10;
  output_tokens = pos 20;
  cost_usd = 3;
  cache_status = codes "none";
  prompt_fqn = [];
  skills_used = [];
  mcps_called = [];
  guardrails_hit = [];
  metadata = [];
  created_at = codes "2026-01-31";
}

abbrev marshal : TransactionEvent ℕ → Result Text
marshal e = ok e.request_id

-- The first call fails and leaves two copies, and the second is acknowledged.
abbrev second_try : Attempts
second_try = record {
  write = λ i. if i == 1 then Producer.failed 2 else acknowledged 0;
  ends = λ i. false;
}

second_try-AtMost : AtMost 10 second_try
second_try-AtMost i = ground arith

abbrev calls : List (Call ℕ)
calls =
    offers (event (codes "r1"))
    ∷ takes second_try
    ∷ offers (event (codes "r2"))
    ∷ offers (event (codes "r3"))
    ∷ takes second_try
    ∷ []

run-Account_example :
    Account marshal length 10
      (offered_by calls)
      (Producer.run marshal length calls (new_producer, λ p. []))
run-Account_example =
    run-Account marshal length 10 calls (second_try-AtMost, (second_try-AtMost, tt))

abbrev waiting : List (TransactionEvent ℕ)
waiting = event (codes "r1") ∷ event (codes "r2") ∷ []

drain_delivers_example :
    ((drain marshal length 2 (λ i. second_try) (offer_all waiting new_producer) (λ p. [])).0
      ≡ new_producer)
    × Arrived marshal length 10 waiting
        (λ p. [])
        (drain marshal length 2 (λ i. second_try) (offer_all waiting new_producer) (λ p. [])).1
unfolding works
drain_delivers_example =
    drain_delivers marshal length 10 (λ i. second_try) waiting (λ p. []) (omega arith)
      (λ i. second_try-AtMost) (λ i. refl)

abbrev prober : Prober
prober = record { server_url = codes "http://server"; max_retries = 5 }

-- The server answers at the third attempt.
abbrev late_server : Outside
late_server = record {
  replies = λ i. if i == 3 then responded 200 else responded 503;
  jitter = λ i n. 0;
  ends = λ i. none;
}

run-Ended_example : Ended plain 4 (Probe.run plain 5 prober late_server)
run-Ended_example = run-Ended plain prober late_server 4 refl (λ i n h. h)

late_server-ReachedAt : ReachedAt plain 3 0 late_server
unfolding check
late_server-ReachedAt = record {
  late = λ i low high.
      (codes "probe.check: unexpected status " ++ plain.show_int (pos 503), ground (arith));
  live = λ i low high. refl;
  good = refl;
}

run-Succeeds_example : Succeeds plain 2 (Probe.run plain 7 prober late_server)
run-Succeeds_example =
    run-Succeeds plain 2 6 prober late_server (omega arith) (inr (omega arith))
      late_server-ReachedAt

-- A time is its number of characters, and a message is the identifier of its event.
abbrev codec : Codec ℕ
codec = record {
  times = record {
    read_timestamp = λ t. some (length t);
    parse = λ t. some (length t);
    day_text = λ n. codes "2026-01-31";
    month_text = λ n. codes "2026-01";
  };
  unmarshal = λ value. if length value == 0 then err (codes "unexpected end") else ok (event value);
  marshal = λ e. some e.request_id;
}

abbrev fine : Processing
fine = record {
  log_exec = executed;
  cost_exec = executed;
  now = 9;
  readers = λ channel. reads;
  committed = true;
}

abbrev at_start : State ℕ
at_start = record {
  tables = record { request_logs = []; cost_records = [] };
  broadcaster = none;
  offset = 0;
}

process_message_again_example :
    (process_message codec fine (codes "r1") (
      consume codec
        (λ i. fine)
        1
        (codes "r2" ∷ [])
        (process_message codec fine (codes "r1") at_start).1)).1.tables
    ≡ (consume codec
        (λ i. fine)
        1
        (codes "r2" ∷ [])
        (process_message codec fine (codes "r1") at_start).1).tables
unfolding process_message persist insert_log insert_cost fan_out
process_message_again_example =
    process_message_again codec fine fine (λ i. fine) 1 (codes "r1") (codes "r2" ∷ []) at_start
      (λ e h. cc h)

-- The empty message fails, and the one behind it is committed.
consume-offset_example : (consume codec (λ i. fine) 0 ([] ∷ codes "r1" ∷ []) at_start).offset ≡ (
    if true
      && is_done
          (process_message codec fine
            (codes "r1")
            (consume codec (λ i. fine) 0 ([] ∷ []) at_start)).0
    then 2
    else (consume codec (λ i. fine) 0 ([] ∷ []) at_start).offset)
consume-offset_example = consume-offset codec (λ i. fine) 0 ([] ∷ []) (codes "r1") at_start

passed_over : (consume codec (λ i. fine) 0 ([] ∷ codes "r1" ∷ []) at_start).offset ≡ 2
unfolding consume Consumer.safe_process process_message persist insert_log insert_cost fan_out
passed_over = refl
