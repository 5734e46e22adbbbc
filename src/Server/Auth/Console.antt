-- ===== src/Server/Auth/Console.antt =====
-- internal/server/api/auth_handler.go: login, refresh and logout of the console. What a handler reads
-- of an HTTP request is a `Visit`; the times, the random bytes and the answers of the database are
-- its `Moment`.
pub mod Logins
pub mod Refreshes
pub mod Logouts
use pangreksa_aigateway.Prelude.{
  ℕ, ◌+◌, ◌*◌, ◌/◌, Bool, true, false, not, ◌||◌, ◌&&◌, List, [], ◌∷◌, ◌++◌, ◌==◌, if◌then◌else◌,
  Option, none, some, Result, ok, err, length,
}
use pangreksa_aigateway.Prelude.Texts.{Text, codes, text_eq, cut, trim_space}
use mathlib.Core.List.{reverse}
use pangreksa_aigateway.Prelude.Int.{pos}
use pangreksa_aigateway.Model.Format.{Format}
use pangreksa_aigateway.Server.Http.{
  Response, write_json, write_error, Lookup, found, not_found, broken,
}
use pangreksa_aigateway.Server.Repository.{Exec}
use pangreksa_aigateway.Server.Auth.Jwt.{Claims, Jose, sign, generate_refresh_token}
use pangreksa_aigateway.Server.Auth.Sessions.{
  User, ConsoleSession, find_by_id, find_user_by_email, find_by_token_hash, create, delete,
}
use pangreksa_aigateway.Server.Auth.Visits.{
  Visit, Cookie, Answer, refresh_cookie_value, before_last_colon, first_part, remote_ip,
}

pub record LoginRequest : Type 0 where
  pub email : Text
  pub password : Text

-- The code that is not the gateway's: encoding/json, bcrypt, SHA-256, and how PostgreSQL spells the
-- UUID that a text stands for.
pub record Crypto : Type 0 where
  pub jose : Jose
  pub decode_login : Text → Result LoginRequest
  pub check_password : Text → Text → Bool
  pub sha256 : Text → Text
  pub uuid : Text → Result Text
  pub encode_error : Text → Text
  pub encode_token : Text → Text  -- a `tokenResponse` for the access token

pub record Moment : Type 0 where
  pub user_fault : Option Text
  pub session_fault : Option Text
  pub permissions : Text → Lookup (List Text)  -- of the user's entitlement
  pub random : Result Text
  pub signed_at : ℕ
  pub now : ℕ
  pub new_id : Text  -- gen_random_uuid()
  pub exec : Exec

abbrev pub cookie_age : ℕ
cookie_age = 604_800

-- Seven days in nanoseconds.
abbrev pub session_ttl : ℕ
session_ttl = 604_800 * 1_000_000_000

abbrev pub answered : Response → Answer
answered r = record { response = r; set_cookie = none }

abbrev pub cleared : Answer
cleared = record {
  response = record { status = 204; body = [] };
  set_cookie = some (record { value = []; max_age = none });
}

-- `loadPerms`
unfoldable pub load_perms : Lookup (List Text) → List Text
load_perms (found perms) = perms
load_perms (not_found e) = []
load_perms (broken e) = []

module _ (fmt : Format) (crypto : Crypto) (secret : Text) where
  abbrev pub refuse : ℕ → Text → Answer
  refuse status message = answered (write_error crypto.encode_error status message)

  abbrev pub internal : Answer
  internal = refuse 500 (codes "internal error")

  abbrev pub token_response : Text → Response
  token_response token = write_json 200 (crypto.encode_token token)

  -- `hashToken`
  unfoldable pub hash_token : Text → Text
  hash_token raw = crypto.jose.hex (crypto.sha256 raw)

  -- The claims that login and refresh sign; `Sign` fills in the times.
  abbrev pub claims_of : Moment → User → Claims
  claims_of io u = record {
    user_id = u.id;
    org_id = u.org_id;
    email = u.email;
    perms = load_perms (io.permissions u.id);
    exp = pos 0;
    iat = pos 0;
  }

  abbrev pub access_token : Moment → User → Result Text
  access_token io u = sign fmt crypto.jose secret io.signed_at (claims_of io u)

  abbrev pub session_of : Moment → Visit → User → Text → ConsoleSession
  session_of io v u raw = record {
    id = io.new_id;
    user_id = u.id;
    refresh_token_hash = hash_token raw;
    ip_address = remote_ip v;
    user_agent = v.user_agent;
    expires_at = io.now + session_ttl;
    created_at = io.now;
  }

  abbrev pub opened :
      Text → Text → Result (Unit {0}) × List ConsoleSession → Answer × List ConsoleSession
  opened token raw (err e, sessions) = (internal, sessions)
  opened token raw (ok _, sessions) = (
    record {
      response = token_response token;
      set_cookie = some (record { value = raw; max_age = some cookie_age });
    },
    sessions,
  )

  -- The part of `handleLogin` after the password has been checked.
  unfoldable pub open_session :
      Moment → Visit → User → List ConsoleSession → Answer × List ConsoleSession
  open_session io v u sessions = elim (access_token io u) [
    | err e ↦ (internal, sessions)
    | ok token ↦ elim (generate_refresh_token crypto.jose io.random) [
      | err e ↦ (internal, sessions)
      | ok raw ↦ opened token raw (create io.exec (session_of io v u raw) sessions)
    ]
  ]

  unfoldable pub check_user :
      Moment → Visit → LoginRequest → User → List ConsoleSession → Answer × List ConsoleSession
  check_user io v req u sessions =
      if text_eq u.status (codes "active")
      then elim u.password_hash [
        | none ↦ (refuse 401 (codes "invalid credentials"), sessions)
        | some hash ↦
            if crypto.check_password hash req.password
            then open_session io v u sessions
            else (refuse 401 (codes "invalid credentials"), sessions)
      ]
      else (refuse 401 (codes "account is not active"), sessions)

  unfoldable pub log_in :
      Moment → Visit → LoginRequest → List User → List ConsoleSession → Answer × List ConsoleSession
  log_in io v req users sessions =
      if length req.email == 0 || length req.password == 0
      then (refuse 400 (codes "email and password are required"), sessions)
      else elim (find_user_by_email io.user_fault req.email users) [
        | not_found e ↦ (refuse 401 (codes "invalid credentials"), sessions)
        | broken e ↦ (internal, sessions)
        | found u ↦ check_user io v req u sessions
      ]

  abbrev pub decoded_login : Option Text → Result LoginRequest
  decoded_login none = err (codes "empty request body")
  decoded_login (some text) = crypto.decode_login text

  -- `handleLogin`
  unfoldable pub handle_login :
      Moment → Visit → List User → List ConsoleSession → Answer × List ConsoleSession
  handle_login io v users sessions = elim (decoded_login v.body) [
    | err e ↦ (refuse 400 (codes "invalid request body"), sessions)
    | ok req ↦ log_in io v req users sessions
  ]

  unfoldable pub renew : Moment → Lookup User → Answer
  renew io (not_found e) = refuse 401 (codes "user not found")
  renew io (broken e) = internal
  renew io (found u) = elim (access_token io u) [
    | err e ↦ internal
    | ok token ↦ answered (token_response token)
  ]

  unfoldable pub renew_session : Moment → List User → Lookup ConsoleSession → Answer
  renew_session io users (not_found e) = refuse 401 (codes "invalid or expired refresh token")
  renew_session io users (broken e) = internal
  renew_session io users (found s) = renew io (find_by_id crypto.uuid io.user_fault s.user_id users)

  -- `handleRefresh`, which changes no table.
  unfoldable pub handle_refresh : Moment → Visit → List User → List ConsoleSession → Answer
  handle_refresh io v users sessions = elim (refresh_cookie_value v) [
    | none ↦ refuse 401 (codes "missing refresh token")
    | some raw ↦
        renew_session io users
          (find_by_token_hash io.session_fault io.now (hash_token raw) sessions)
  ]

  unfoldable pub close_session :
      Moment → Lookup ConsoleSession → List ConsoleSession → List ConsoleSession
  close_session io (not_found e) sessions = sessions
  close_session io (broken e) sessions = sessions
  close_session io (found s) sessions = (delete io.exec s.id sessions).1

  -- `handleLogout`
  unfoldable pub handle_logout : Moment → Visit → List ConsoleSession → Answer × List ConsoleSession
  handle_logout io v sessions = elim (refresh_cookie_value v) [
    | none ↦ (answered (record { status = 204; body = [] }), sessions)
    | some raw ↦ (
      cleared,
      close_session io (find_by_token_hash io.session_fault io.now (hash_token raw) sessions)
          sessions,
    )
  ]
