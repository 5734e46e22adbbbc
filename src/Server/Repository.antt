-- ===== src/Server/Repository.antt =====
-- internal/server/repository/request_log.go and cost_record.go: the two inserts, with
-- `ON CONFLICT ... DO NOTHING` on their keys. How the database and Go read a time is `Times`.
pub mod Keys
use pangreksa_aigateway.Prelude.{
  ℕ, Bool, true, false, ◌&&◌, List, [], ◌∷◌, ◌++◌, ◌==◌, if◌then◌else◌, Option, none, some, Result,
  ok, err, any,
}
use pangreksa_aigateway.Prelude.Texts.{Text, codes, text_eq}
use pangreksa_aigateway.Prelude.Int.{ℤ}
use pangreksa_aigateway.Prelude.Dict.{Dict}
use pangreksa_aigateway.Model.Inquiry.{TransactionEvent}

-- A row of request_logs. `created_at` is the instant that the database reads in the text.
pub record LogRow (F : Type 0) : Type 0 where
  pub id : Text
  pub org_id : Text
  pub user_id : Text
  pub model : Text
  pub provider : Text
  pub status : Text
  pub latency_ms : ℕ
  pub ttft_ms : ℕ
  pub input_tokens : ℤ
  pub output_tokens : ℤ
  pub cost_usd : F
  pub cache_status : Text
  pub prompt_fqn : Text
  pub skills_used : List Text
  pub mcps_called : List Text
  pub guardrails_hit : List Text
  pub metadata : Dict Text
  pub created_at : ℕ

-- A row of cost_records.
pub record CostRow (F : Type 0) : Type 0 where
  pub org_id : Text
  pub request_log_id : Text
  pub user_id : Text
  pub model : Text
  pub input_tokens : ℤ
  pub output_tokens : ℤ
  pub cost_usd : F
  pub period_day : Text
  pub period_month : Text

pub record Tables (F : Type 0) : Type 0 where
  pub request_logs : List (LogRow F)
  pub cost_records : List (CostRow F)

-- The database's reading of a timestamp (`none` is an error), `time.Parse(time.RFC3339, s)`, and the
-- two formats of a date.
pub record Times : Type 0 where
  pub read_timestamp : Text → Option ℕ
  pub parse : Text → Option ℕ
  pub day_text : ℕ → Text
  pub month_text : ℕ → Text

-- What becomes of one statement: it is executed, or the call fails, with the statement executed or
-- not.
pub data Exec : Type 0 where
  executed : Exec
  failed : Text → Bool → Exec

abbrev pub is_executed : Exec → Bool
is_executed executed = true
is_executed (failed e arrived) = arrived

-- `ON CONFLICT DO NOTHING`
unfoldable pub insert_new : {R : Type 0} → (R → R → Bool) → R → List R → List R
insert_new same row rows = if any (same row) rows then rows else rows ++ row ∷ []

abbrev pub exec_result : Text → Exec → Result (Unit {0})
exec_result method executed = ok tt
exec_result method (failed e arrived) = err (method ++ (codes ": exec: " ++ e))

-- The instant of the cost record: the event's, or the present one if its text cannot be parsed.
abbrev pub or_now : ℕ → Option ℕ → ℕ
or_now now none = now
or_now now (some instant) = instant

module _ {F : Type 0} where
  unfoldable pub log_row : ℕ → TransactionEvent F → LogRow F
  log_row instant event = record {
    id = event.request_id;
    org_id = event.org_id;
    user_id = event.user_id;
    model = event.model;
    provider = event.provider;
    status = event.status;
    latency_ms = event.latency_ms;
    ttft_ms = event.ttft_ms;
    input_tokens = event.input_tokens;
    output_tokens = event.output_tokens;
    cost_usd = event.cost_usd;
    cache_status = event.cache_status;
    prompt_fqn = event.prompt_fqn;
    skills_used = event.skills_used;
    mcps_called = event.mcps_called;
    guardrails_hit = event.guardrails_hit;
    metadata = event.metadata;
    created_at = instant;
  }

  abbrev pub same_log : LogRow F → LogRow F → Bool
  same_log row other = text_eq other.id row.id && other.created_at == row.created_at

  abbrev pub same_cost : CostRow F → CostRow F → Bool
  same_cost row other = text_eq other.request_log_id row.request_log_id

  -- `RequestLogRepository.Insert`
  unfoldable pub insert_log :
      Times → Exec → TransactionEvent F → Tables F → Result (Unit {0}) × Tables F
  insert_log times x event t = elim (times.read_timestamp event.created_at) [
    | none ↦ (
      err (codes "RequestLogRepository.Insert: exec: invalid input syntax for type timestamp"),
      t,
    )
    | some instant ↦ (
      exec_result (codes "RequestLogRepository.Insert") x,
      if is_executed x
          then record t {
            request_logs = insert_new same_log (log_row instant event) t.request_logs;
          }
          else t,
    )
  ]

  unfoldable pub cost_row : Times → ℕ → TransactionEvent F → CostRow F
  cost_row times now event = record {
    org_id = event.org_id;
    request_log_id = event.request_id;
    user_id = event.user_id;
    model = event.model;
    input_tokens = event.input_tokens;
    output_tokens = event.output_tokens;
    cost_usd = event.cost_usd;
    period_day = times.day_text (or_now now (times.parse event.created_at));
    period_month = times.month_text (or_now now (times.parse event.created_at));
  }

  -- `CostRecordRepository.Insert`
  unfoldable pub insert_cost :
      Times → Exec → ℕ → TransactionEvent F → Tables F → Result (Unit {0}) × Tables F
  insert_cost times x now event t = (
    exec_result (codes "CostRecordRepository.Insert") x,
    if is_executed x
        then record t {
          cost_records = insert_new same_cost (cost_row times now event) t.cost_records;
        }
        else t,
  )
