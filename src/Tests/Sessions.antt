-- ===== src/Tests/Sessions.antt =====
-- Runs of the console's tokens and sessions.
use mathlib.Core.Path.{ap}
use pangreksa_aigateway.Prelude.{
  ℕ, ◌+◌, ◌-◌, ◌≡◌, refl, false, List, [], ◌∷◌, ◌++◌, ltb, if◌then◌else◌, none, some, ok, arith,
}
use pangreksa_aigateway.Prelude.Texts.{Text, codes, text_eq}
use pangreksa_aigateway.Prelude.Int.{pos}
use pangreksa_aigateway.Prelude.Splitting.{Lacks}
use pangreksa_aigateway.Server.Http.{found}
use pangreksa_aigateway.Server.Repository.{executed}
use pangreksa_aigateway.Server.Auth.Jwt.{
  Claims, Jose, sign, stamped, validate, generate_refresh_token,
}
use pangreksa_aigateway.Server.Auth.Jwt.Tokens
use pangreksa_aigateway.Server.Auth.Jwt.Tokens.{Accepted, validate-sign, validate-Accepted}
use pangreksa_aigateway.Server.Auth.Sessions.{
  User, ConsoleSession, first_row, find_user_by_email, create,
}
use pangreksa_aigateway.Server.Auth.Console.{
  Crypto, Moment, session_ttl, hash_token, open_session, check_user, log_in, handle_login,
  handle_refresh, handle_logout, refuse, answered, token_response,
}
use pangreksa_aigateway.Server.Auth.Visits.{Visit, Answer, refresh_cookie_value}
use pangreksa_aigateway.Server.Auth.Console.Logins.{Opens, Admits, handle_login-Admits}
use pangreksa_aigateway.Server.Auth.Console.Refreshes.{
  with_statuses, refresh_after_login, refresh_ignores_status,
}
use pangreksa_aigateway.Server.Auth.Console.Logouts.{refresh_after_logout}
use pangreksa_aigateway.Tests.Instances.{plain}

abbrev shift : Text → Text
shift [] = []
shift (c ∷ s) = (c + 47) ∷ shift s

abbrev unshift : Text → Text
unshift [] = []
unshift (c ∷ s) = (c - 47) ∷ unshift s

unshift-shift : (s : Text) → unshift (shift s) ≡ s
unshift-shift [] = refl
unshift-shift (c ∷ s) = ground (arith, unshift-shift s)

shift-Lacks : (s : Text) → Lacks b'.' (shift s)
shift-Lacks [] = tt
shift-Lacks (c ∷ s) = (λ e. omega (arith, e), shift-Lacks s)

abbrev claims : Claims
claims = record {
  user_id = codes "u1";
  org_id = codes "acme";
  email = codes "alice@acme";
  perms = codes "console.read" ∷ [];
  exp = pos 0;
  iat = pos 0;
}

-- Encoded by a shift; there is one document, and the hash keeps the input.
abbrev jose : Jose
jose = record {
  marshal = λ c. ok (codes "{}");
  unmarshal = λ b. ok (record claims { exp = pos 1_900; iat = pos 1_000 });
  encode = shift;
  decode = λ t. ok (unshift t);
  hmac = λ secret input. secret ++ input;
  hex = λ t. t;
}

jose_laws : Tokens.Laws plain jose
jose_laws = record { decode-encode = λ b. ap ok (unshift-shift b); encode-lacks = shift-Lacks }

abbrev secret : Text
secret = codes "s3cret"

signs : (token : Text) × (sign plain jose secret 1_000 claims ≡ ok token)
unfolding sign
signs = (_, refl)

validate-sign_example : validate plain jose secret 1_500 signs.0 ≡ ok (stamped 1_000 claims)
unfolding stamped
validate-sign_example =
    validate-sign plain jose jose_laws secret 1_000 1_500 claims (codes "{}") signs.0 refl refl
      (omega arith) signs.1

accepts :
    (token : Text) × (validate plain jose secret 1_500 token
      ≡ ok (record claims { exp = pos 1_900; iat = pos 1_000 }))
unfolding stamped
accepts = (
  signs.0,
  validate-sign plain jose jose_laws secret 1_000 1_500 claims (codes "{}") signs.0 refl refl
      (omega arith) signs.1,
)

validate-Accepted_example :
    Accepted plain jose secret 1_500 accepts.0 (record claims { exp = pos 1_900; iat = pos 1_000 })
validate-Accepted_example =
    validate-Accepted plain jose secret 1_500 accepts.0
      (record claims { exp = pos 1_900; iat = pos 1_000 }) accepts.1

abbrev crypto : Crypto
crypto = record {
  jose = jose;
  decode_login = λ t. ok (record { email = codes "alice@acme"; password = t });
  check_password = λ hash password. text_eq hash password;
  sha256 = λ t. t;
  uuid = λ t. ok t;
  encode_error = λ t. t;
  encode_token = λ t. t;
}

abbrev pub users : List User
users =
    record {
      id = codes "u1";
      org_id = codes "acme";
      email = codes "alice@acme";
      password_hash = some (codes "pw");
      provider = codes "local";
      status = codes "active";
      mfa_enabled = false;
      failed_login_count = pos 0;
      locked_until = none;
      created_at = 0;
    }
    ∷ []

abbrev moment : ℕ → Moment
moment now = record {
  user_fault = none;
  session_fault = none;
  permissions = λ id. found (codes "console.read" ∷ []);
  random = ok (codes "r4nd0m");
  signed_at = 1_000;
  now = now;
  new_id = codes "s1";
  exec = executed;
}

abbrev visit : Visit
visit = record {
  body = some (codes "pw");
  cookie = some (codes "r4nd0m");
  real_ip = codes "10.0.0.1";
  forwarded_for = [];
  remote_addr = codes "10.0.0.2:4000";
  user_agent = codes "curl";
}

admits : (handle_login plain crypto secret (moment 5) visit users []).0.response.status ≡ 200
unfolding handle_login log_in check_user open_session find_user_by_email first_row text_eq sign
    generate_refresh_token create
admits = refl

handle_login-Admits_example :
    Admits plain crypto secret
      (moment 5)
      visit
      users
      []
      (handle_login plain crypto secret (moment 5) visit users [])
handle_login-Admits_example =
    handle_login-Admits plain crypto secret (moment 5) visit users [] admits

abbrev alice_row : User
alice_row = record {
  id = codes "u1";
  org_id = codes "acme";
  email = codes "alice@acme";
  password_hash = some (codes "pw");
  provider = codes "local";
  status = codes "active";
  mfa_enabled = false;
  failed_login_count = pos 0;
  locked_until = none;
  created_at = 0;
}

abbrev opening : Answer × List ConsoleSession
opening = open_session plain crypto secret (moment 5) visit alice_row []

opening-Opens : Opens plain crypto secret (moment 5) visit alice_row [] opening
unfolding open_session sign generate_refresh_token create hash_token
opening-Opens = record {
  token = _;
  raw = codes "r4nd0m";
  signed = refl;
  drawn = refl;
  fresh = refl;
  answer = refl;
  stored = refl;
}

refresh_after_login_example :
    handle_refresh plain crypto secret (moment 100) visit users opening.1 ≡ (
      if ltb 100 (5 + session_ttl)
      then answered (token_response plain crypto secret signs.0)
      else refuse plain crypto secret 401 (codes "invalid or expired refresh token"))
unfolding refresh_cookie_value opening-Opens first_row text_eq
refresh_after_login_example =
    refresh_after_login plain crypto secret (moment 5) (moment 100) visit visit alice_row alice_row
      users [] opening signs.0 opening-Opens refl refl refl refl refl signs.1

refresh_ignores_status_example :
    handle_refresh plain crypto secret
      (moment 100)
      visit
      (with_statuses (λ u. codes "suspended") users)
      opening.1
    ≡ handle_refresh plain crypto secret (moment 100) visit users opening.1
refresh_ignores_status_example =
    refresh_ignores_status plain crypto secret (moment 100) visit users opening.1
      (λ u. codes "suspended")

refresh_after_logout_example :
    handle_refresh plain crypto secret
      (moment 100)
      visit
      users
      (handle_logout plain crypto secret (moment 50) visit opening.1).1
    ≡ refuse plain crypto secret 401 (codes "invalid or expired refresh token")
unfolding open_session sign generate_refresh_token create hash_token refresh_cookie_value
refresh_after_logout_example =
    refresh_after_logout plain crypto secret (moment 50) (moment 100) visit visit users opening.1
      (codes "r4nd0m") (refl, tt) refl refl refl refl refl (omega arith)
