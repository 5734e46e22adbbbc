-- ===== src/Server/Auth/Sessions.antt =====
-- internal/server/repository/user.go and console_session.go: the tables users and console_sessions,
-- with the unique token hash of the migration. A time is in nanoseconds.
use pangreksa_aigateway.Prelude.{
  ℕ, ◌+◌, Bool, ◌&&◌, List, [], ◌∷◌, ◌++◌, ltb, leb, if◌then◌else◌, Option, none, some, Result, ok,
  err, any,
}
use pangreksa_aigateway.Prelude.Texts.{Text, codes, text_eq}
use pangreksa_aigateway.Prelude.Int.{ℤ}
use pangreksa_aigateway.Server.Http.{Lookup, found, not_found, broken}
use pangreksa_aigateway.Server.Repository.{Exec, executed, failed, is_executed, exec_result}

pub record User : Type 0 where
  pub id : Text
  pub org_id : Text
  pub email : Text
  pub password_hash : Option Text
  pub provider : Text
  pub status : Text
  pub mfa_enabled : Bool
  pub failed_login_count : ℤ
  pub locked_until : Option ℕ
  pub created_at : ℕ

pub record ConsoleSession : Type 0 where
  pub id : Text
  pub user_id : Text
  pub refresh_token_hash : Text
  pub ip_address : Text
  pub user_agent : Text
  pub expires_at : ℕ
  pub created_at : ℕ

-- The first row with a property: a row that the query can return.
unfoldable pub first_row : {A : Type 0} → (A → Bool) → List A → Option A
first_row test [] = none
first_row test (a ∷ rows) = let rest = first_row test rows in if test a then some a else rest

-- The result of a query that fails with a message, or finds a row or none.
abbrev pub query_result : {A : Type 0} → Text → Option Text → Option A → Lookup A
query_result method (some e) row = broken (method ++ (codes ": scan: " ++ e))
query_result method none none = not_found (method ++ codes ": not found")
query_result method none (some a) = found a

-- A query for the row with this value in a column of type UUID: the rows hold UUIDs in PostgreSQL's
-- spelling, which `uuid` gives of a text, and a text that is no UUID makes the query fail.
unfoldable pub find_by_uuid :
    {A : Type 0} → (Text → Result Text) → Text → (A → Text) → Option Text → Text → List A → Lookup A
find_by_uuid uuid method column (some e) id rows = query_result method (some e) none
find_by_uuid uuid method column none id rows = elim (uuid id) [
  | err e ↦ query_result method (some e) none
  | ok key ↦ query_result method none (first_row (λ row. text_eq (column row) key) rows)
]

-- `UserRepository.FindByID` and `FindByEmail`
unfoldable pub find_by_id : (Text → Result Text) → Option Text → Text → List User → Lookup User
unfolding find_by_uuid
find_by_id uuid fault id users =
    find_by_uuid uuid (codes "UserRepository.FindByID") (λ u. u.id) fault id users

unfoldable pub find_by_email :
    (Text → Result Text) → Option Text → Text → Text → List User → Lookup User
find_by_email uuid (some e) org_id email users =
    query_result (codes "UserRepository.FindByEmail") (some e) none
find_by_email uuid none org_id email users = elim (uuid org_id) [
  | err e ↦ query_result (codes "UserRepository.FindByEmail") (some e) none
  | ok key ↦
      query_result (codes "UserRepository.FindByEmail") none
        (first_row (λ u. text_eq u.org_id key && text_eq u.email email) users)
]

-- `ConsoleAuthHandler.findUserByEmail`
unfoldable pub find_user_by_email : Option Text → Text → List User → Lookup User
find_user_by_email fault email users =
    query_result (codes "findUserByEmail") fault (first_row (λ u. text_eq u.email email) users)

abbrev pub has_hash : Text → ConsoleSession → Bool
has_hash hash s = text_eq s.refresh_token_hash hash

abbrev pub is_live : ℕ → ConsoleSession → Bool
is_live now s = ltb now s.expires_at

-- `Create`: the database refuses a hash that is there already.
unfoldable pub create :
    Exec → ConsoleSession → List ConsoleSession → Result (Unit {0}) × List ConsoleSession
create x s sessions =
    if any (has_hash s.refresh_token_hash) sessions
    then (
      err (
          codes
            "ConsoleSessionRepository.Create: exec: duplicate key value violates unique constraint"),
      sessions,
    )
    else (
      exec_result (codes "ConsoleSessionRepository.Create") x,
      if is_executed x then sessions ++ s ∷ [] else sessions,
    )

-- `FindByTokenHash`
unfoldable pub find_by_token_hash :
    Option Text → ℕ → Text → List ConsoleSession → Lookup ConsoleSession
find_by_token_hash fault now hash sessions =
    query_result (codes "ConsoleSessionRepository.FindByTokenHash") fault
      (first_row (λ s. has_hash hash s && is_live now s) sessions)

-- The rows without a property.
unfoldable pub without : (ConsoleSession → Bool) → List ConsoleSession → List ConsoleSession
without test [] = []
without test (s ∷ sessions) = let rest = without test sessions in if test s then rest else s ∷ rest

-- `Delete`
unfoldable pub delete : Exec → Text → List ConsoleSession → Result (Unit {0}) × List ConsoleSession
delete x id sessions = (
  exec_result (codes "ConsoleSessionRepository.Delete") x,
  if is_executed x then without (λ s. text_eq s.id id) sessions else sessions,
)

unfoldable pub count_expired : ℕ → List ConsoleSession → ℕ
count_expired now [] = 0
count_expired now (s ∷ sessions) =
    (if leb s.expires_at now then 1 else 0) + count_expired now sessions

-- `DeleteExpired`
abbrev pub rows_affected : ℕ → Exec → Result ℕ
rows_affected n executed = ok n
rows_affected n (failed e arrived) =
    err (codes "ConsoleSessionRepository.DeleteExpired: exec: " ++ e)

unfoldable pub delete_expired : Exec → ℕ → List ConsoleSession → Result ℕ × List ConsoleSession
delete_expired x now sessions =
    let kept = without (λ s. leb s.expires_at now) sessions in
    (rows_affected (count_expired now sessions) x, if is_executed x then kept else sessions)
