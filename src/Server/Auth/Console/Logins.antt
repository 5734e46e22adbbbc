-- ===== src/Server/Auth/Console/Logins.antt =====
-- auth_handler.go: what a successful login shows.
use pangreksa_aigateway.Prelude.{
  ◌≡◌, refl, sym, ap, ◌∙◌, true, false, ◌||◌, List, [], ◌∷◌, ◌++◌, ◌==◌, some, Result, ok, err,
  length, any, arith, inl, inr, Bool-cases, Result-cases, Option-cases,
}
use mathlib.Core.Path.{subst}
use pangreksa_aigateway.Prelude.Texts.{Text, codes, text_eq, text_eq_sound}
use pangreksa_aigateway.Model.Format.{Format}
use pangreksa_aigateway.Server.Http.{found, Lookup-cases}
use pangreksa_aigateway.Server.Repository.{Exec, executed, failed}
use pangreksa_aigateway.Server.Auth.Jwt.{generate_refresh_token}
use pangreksa_aigateway.Server.Auth.Sessions.{
  User, ConsoleSession, find_user_by_email, has_hash, create,
}
use pangreksa_aigateway.Server.Auth.Console.{
  LoginRequest, Crypto, Moment, cookie_age, hash_token, access_token, session_of, opened,
  open_session, check_user, log_in, decoded_login, handle_login, token_response,
}
use pangreksa_aigateway.Server.Auth.Visits.{Visit, Answer}

module _ (fmt : Format) (crypto : Crypto) (secret : Text) where
  -- The access token and the session that a successful login gives.
  pub record Opens (io : Moment) (v : Visit) (u : User) (sessions : List ConsoleSession)
      (r : Answer × List ConsoleSession) : Type 0 where
    pub token : Text
    pub raw : Text
    pub signed : access_token fmt crypto secret io u ≡ ok token
    pub drawn : generate_refresh_token crypto.jose io.random ≡ ok raw
    pub fresh : any (has_hash (hash_token fmt crypto secret raw)) sessions ≡ false
    pub answer : r.0 ≡ record {
      response = token_response fmt crypto secret token;
      set_cookie = some (record { value = raw; max_age = some cookie_age });
    }
    pub stored : r.1 ≡ sessions ++ session_of fmt crypto secret io v u raw ∷ []

  create-ok :
      (x : Exec) (s : ConsoleSession) (sessions : List ConsoleSession)
      → (create x s sessions).0 ≡ ok tt
      → (any (has_hash s.refresh_token_hash) sessions ≡ false)
        × ((create x s sessions).1 ≡ sessions ++ s ∷ [])
  unfolding create
  create-ok executed s sessions h = ground arith
  create-ok (failed e arrived) s sessions h = absurd (ground arith)

  opened-ok :
      (token raw : Text) (r : Result (Unit {0}) × List ConsoleSession)
      → (opened fmt crypto secret token raw r).0.response.status ≡ 200
      → r.0 ≡ ok tt
  opened-ok token raw (ok _, sessions) h = refl
  opened-ok token raw (err e, sessions) h = absurd (omega arith)

  opened-answer :
      (token raw : Text) (r : Result (Unit {0}) × List ConsoleSession)
      → r.0 ≡ ok tt
      → opened fmt crypto secret token raw r ≡ (
        record {
          response = token_response fmt crypto secret token;
          set_cookie = some (record { value = raw; max_age = some cookie_age });
        },
        r.1,
      )
  opened-answer token raw (ok _, sessions) h = refl
  opened-answer token raw (err e, sessions) h = cc

  open_session-Opens :
      (io : Moment) (v : Visit) (u : User) (sessions : List ConsoleSession)
      → (open_session fmt crypto secret io v u sessions).0.response.status ≡ 200
      → Opens io v u sessions (open_session fmt crypto secret io v u sessions)
  unfolding open_session
  open_session-Opens io v u sessions h = elim (Result-cases (access_token fmt crypto secret io u)) [
    | inr (m, e) ↦ absurd (omega (arith, rw (e, open_session) at h))
    | inl (token, e) ↦ elim (Result-cases (generate_refresh_token crypto.jose io.random)) [
      | inr (m, g) ↦ absurd (omega (arith, rw (e, open_session, g) at h))
      | inl (raw, g) ↦
          let made = create io.exec (session_of fmt crypto secret io v u raw) sessions in
          let created = opened-ok token raw made (rw (e, open_session, g) at h) in
          let (fresh, appended) =
            create-ok io.exec (session_of fmt crypto secret io v u raw) sessions created in
          let whole = opened-answer token raw made created in
          rw (e, open_session, g)
            (record {
              token = token;
              raw = raw;
              signed = e;
              drawn = g;
              fresh = fresh;
              answer = ap (λ (r : Answer × List ConsoleSession). r.0) whole;
              stored = ap (λ (r : Answer × List ConsoleSession). r.1) whole ∙ appended;
            })
    ]
  ]

  -- What a login with the status 200 shows.
  pub record Admits (io : Moment) (v : Visit) (users : List User) (sessions : List ConsoleSession)
      (r : Answer × List ConsoleSession) : Type 0 where
    pub request : LoginRequest
    pub user : User
    pub password_hash : Text
    pub decoded : decoded_login fmt crypto secret v.body ≡ ok request
    pub registered : find_user_by_email io.user_fault request.email users ≡ found user
    pub active : user.status ≡ codes "active"
    pub protected : user.password_hash ≡ some password_hash
    pub checked : crypto.check_password password_hash request.password ≡ true
    pub opens : Opens io v user sessions r

  -- What the checks of the user established.
  record Passes (req : LoginRequest) (u : User) : Type 0 where
    password_hash : Text
    active : u.status ≡ codes "active"
    protected : u.password_hash ≡ some password_hash
    checked : crypto.check_password password_hash req.password ≡ true

  check_user-Passes :
      (io : Moment) (v : Visit) (req : LoginRequest) (u : User) (sessions : List ConsoleSession)
      → (check_user fmt crypto secret io v req u sessions).0.response.status ≡ 200
      → Passes req u
        × (check_user fmt crypto secret io v req u sessions
            ≡ open_session fmt crypto secret io v u sessions)
  unfolding check_user
  check_user-Passes io v req u sessions h = elim (Bool-cases (text_eq u.status (codes "active"))) [
    | inr e ↦ absurd (omega (arith, rw (e, check_user) at h))
    | inl active ↦ elim (Option-cases u.password_hash) [
      | inl e ↦ absurd (omega (arith, rw (active, check_user, e) at h))
      | inr (hash, protected) ↦ elim (Bool-cases (crypto.check_password hash req.password)) [
        | inr e ↦ absurd (omega (arith, rw (active, check_user, protected, e) at h))
        | inl checked ↦ (
          record {
            password_hash = hash;
            active = text_eq_sound u.status (codes "active") active;
            protected = protected;
            checked = checked;
          },
          ground (arith, active, protected, checked),
        )
      ]
    ]
  ]

  log_in-Passes :
      (io : Moment) (v : Visit) (req : LoginRequest) (users : List User)
      (sessions : List ConsoleSession)
      → (log_in fmt crypto secret io v req users sessions).0.response.status ≡ 200
      → (u : User) × (find_user_by_email io.user_fault req.email users ≡ found u)
        × Passes req u
        × (log_in fmt crypto secret io v req users sessions
            ≡ open_session fmt crypto secret io v u sessions)
  unfolding log_in
  log_in-Passes io v req users sessions h =
      elim (Bool-cases (length req.email == 0 || length req.password == 0)) [
        | inl e ↦ absurd (omega (arith, rw (e, log_in) at h))
        | inr filled ↦ elim (Lookup-cases (find_user_by_email io.user_fault req.email users)) [
          | inl (u, e) ↦
              let (passes, same) =
                check_user-Passes io v req u sessions (rw (filled, log_in, e) at h) in
              (u, e, passes, rw (filled, log_in, e) same)
          | inr missing ↦ elim missing [
            | inl (m, e) ↦ absurd (omega (arith, rw (filled, log_in, e) at h))
            | inr (m, e) ↦ absurd (omega (arith, rw (filled, log_in, e) at h))
          ]
        ]
      ]

  -- A login is answered with 200 only if the body decodes, the user found by its e-mail address is
  -- active and has a password hash, and the password matches it. The answer then holds an access token
  -- signed for this user and sets the new refresh token as the cookie, and the session stored has the
  -- hash of this token, which no other session has, and ends seven days later.
  pub handle_login-Admits :
      (io : Moment) (v : Visit) (users : List User) (sessions : List ConsoleSession)
      → (handle_login fmt crypto secret io v users sessions).0.response.status ≡ 200
      → Admits io v users sessions (handle_login fmt crypto secret io v users sessions)
  unfolding handle_login
  handle_login-Admits io v users sessions h =
      elim (Result-cases (decoded_login fmt crypto secret v.body)) [
        | inr (m, e) ↦ absurd (omega (arith, rw (e, handle_login) at h))
        | inl (req, e) ↦
            let (u, registered, passes, same) =
              log_in-Passes io v req users sessions (rw (e, handle_login) at h) in
            let whole : handle_login fmt crypto secret io v users sessions
                ≡ open_session fmt crypto secret io v u sessions =
              rw (e, handle_login) same in
            record {
              request = req;
              user = u;
              password_hash = passes.password_hash;
              decoded = e;
              registered = registered;
              active = passes.active;
              protected = passes.protected;
              checked = passes.checked;
              opens = subst (Opens io v u sessions) (sym whole) (
                  open_session-Opens io v u sessions (
                    ap (λ (r : Answer × List ConsoleSession). r.0.response.status) (sym whole)
                    ∙ h));
            }
      ]
