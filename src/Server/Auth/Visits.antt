-- ===== src/Server/Auth/Visits.antt =====
-- internal/server/api/auth_handler.go: what the handlers read of an HTTP request, and the cookie of
-- their answers.
use pangreksa_aigateway.Prelude.{ℕ, not, ◌==◌, if◌then◌else◌, Option, none, some, length}
use pangreksa_aigateway.Prelude.Texts.{Text, cut, trim_space}
use mathlib.Core.List.{reverse}
use pangreksa_aigateway.Server.Http.{Response}

pub record Visit : Type 0 where
  pub body : Option Text
  pub cookie : Option Text
  pub real_ip : Text
  pub forwarded_for : Text
  pub remote_addr : Text
  pub user_agent : Text

-- The refresh cookie that an answer sets: its value and MaxAge; `none` for -1.
pub record Cookie : Type 0 where
  pub value : Text
  pub max_age : Option ℕ

pub record Answer : Type 0 where
  pub response : Response
  pub set_cookie : Option Cookie

-- `refreshCookieValue`
unfoldable pub refresh_cookie_value : Visit → Option Text
refresh_cookie_value v = elim v.cookie [
  | none ↦ none
  | some value ↦ if length value == 0 then none else some value
]

-- The text before the last colon, if there is one.
unfoldable pub before_last_colon : Text → Text
before_last_colon addr = elim (cut b':' (reverse addr)) [
  | none ↦ addr
  | some (port, host) ↦ reverse host
]

unfoldable pub first_part : Text → Text
first_part s = elim (cut b',' s) [ none ↦ s | some (a, b) ↦ a ]

-- `remoteIP`
unfoldable pub remote_ip : Visit → Text
remote_ip v =
    if not (length v.real_ip == 0)
    then v.real_ip
    else if not (length v.forwarded_for == 0)
    then trim_space (first_part v.forwarded_for)
    else before_last_colon v.remote_addr
