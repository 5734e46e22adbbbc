-- ===== src/Server/Auth/Console/Refreshes.antt =====
-- auth_handler.go: how long a refresh token serves.
use pangreksa_aigateway.Prelude.{
  ℕ, ◌+◌, ◌≡◌, refl, ap, ◌∙◌, Bool, true, false, ◌&&◌, List, [], ◌∷◌, ◌++◌, ltb, if◌then◌else◌,
  Option, none, some, any, arith, inl, inr, Bool-cases, Option-cases, Result-cases, ok,
}
use pangreksa_aigateway.Prelude.Texts.{Text, codes, text_eq, text_eq_refl}
use pangreksa_aigateway.Model.Format.{Format}
use pangreksa_aigateway.Server.Http.{Lookup, found, not_found, broken}
use pangreksa_aigateway.Server.Auth.Sessions.{
  User, ConsoleSession, first_row, query_result, find_by_uuid, find_by_id, has_hash, is_live,
  find_by_token_hash,
}
use pangreksa_aigateway.Server.Auth.Console.{
  Crypto, Moment, session_ttl, access_token, answered, token_response, hash_token, session_of,
  refuse, renew, renew_session, handle_refresh,
}
use pangreksa_aigateway.Server.Auth.Visits.{Visit, Answer, refresh_cookie_value}
use pangreksa_aigateway.Server.Auth.Console.Logins.{Opens}

-- The users with other states, chosen by the user.
abbrev pub with_statuses : (User → Text) → List User → List User
with_statuses status [] = []
with_statuses status (u ∷ users) = record u { status = status u } ∷ with_statuses status users

abbrev restated : (User → Text) → Option User → Option User
restated status none = none
restated status (some u) = some (record u { status = status u })

first_row-with_statuses :
    (status : User → Text) (id : Text) (users : List User)
    → first_row (λ u. text_eq u.id id) (with_statuses status users)
      ≡ restated status (first_row (λ u. text_eq u.id id) users)
unfolding first_row
first_row-with_statuses status id [] = refl
first_row-with_statuses status id (u ∷ users) = elim (Bool-cases (text_eq u.id id)) [
  | inl e ↦ rw e
  | inr e ↦ rw e (first_row-with_statuses status id users)
]

-- No row with this hash is left among rows without the hash.
pub first_row-none :
    (hash : Text) (now : ℕ) (sessions : List ConsoleSession)
    → any (has_hash hash) sessions ≡ false
    → first_row (λ s. has_hash hash s && is_live now s) sessions ≡ none
unfolding first_row
first_row-none hash now [] h = refl
first_row-none hash now (s ∷ sessions) h = ground (arith, first_row-none hash now sessions)

first_row-snoc :
    (hash : Text) (now : ℕ) (sessions : List ConsoleSession) (s : ConsoleSession)
    → any (has_hash hash) sessions ≡ false
    → has_hash hash s ≡ true
    → first_row (λ r. has_hash hash r && is_live now r) (sessions ++ s ∷ [])
      ≡ (if is_live now s then some s else none)
unfolding first_row
first_row-snoc hash now [] s h own = ground (arith, own)
first_row-snoc hash now (r ∷ sessions) s h own =
    ground (arith, first_row-snoc hash now sessions s, own)

module _ (fmt : Format) (crypto : Crypto) (secret : Text) where
  pub handle_refresh-row :
      (io : Moment) (v : Visit) (users : List User) (sessions : List ConsoleSession) (raw : Text)
      → refresh_cookie_value v ≡ some raw
      → handle_refresh fmt crypto secret io v users sessions
        ≡ renew_session fmt crypto secret io users
            (find_by_token_hash io.session_fault io.now (hash_token fmt crypto secret raw) sessions)
  unfolding handle_refresh
  handle_refresh-row io v users sessions raw h = rw (h, handle_refresh)

  renew_if :
      (io : Moment) (users : List User) (s : ConsoleSession) (b : Bool)
      → renew_session fmt crypto secret io users (
          query_result
            (codes "ConsoleSessionRepository.FindByTokenHash")
            none
            (if b then some s else none))
        ≡ (if b
            then renew fmt crypto secret io (find_by_id crypto.uuid io.user_fault s.user_id users)
            else refuse fmt crypto secret 401 (codes "invalid or expired refresh token"))
  unfolding renew_session
  renew_if io users s true = refl
  renew_if io users s false = refl

  -- The answer of `renew` for a user who is found by the UUID of the row and whose token is signed.
  renew-token :
      (io : Moment) (id : Text) (users : List User) (u : User) (token : Text)
      → io.user_fault ≡ none
      → crypto.uuid id ≡ ok id
      → first_row (λ w. text_eq w.id id) users ≡ some u
      → access_token fmt crypto secret io u ≡ ok token
      → renew fmt crypto secret io (find_by_id crypto.uuid io.user_fault id users)
        ≡ answered (token_response fmt crypto secret token)
  unfolding renew find_by_id
  renew-token io id users u token answers spelled listed signed =
      ap
        (λ (fault : Option Text).
          renew fmt crypto secret io (find_by_id crypto.uuid fault id users))
        answers
      ∙ rw (spelled, find_by_uuid, listed, renew, signed)

  -- After a login the refresh token is good for seven days and no longer. Take a refresh with its
  -- cookie, on the sessions that the login left and on a database that answers, whose users still have
  -- the one who logged in under a UUID in PostgreSQL's spelling. If the moment lies before the end of
  -- the session, the answer is 200 with the access token that is signed for the user as the table has
  -- them then, and no new cookie; from then on it is 401.
  pub refresh_after_login :
      (io io' : Moment) (v v' : Visit) (u u' : User) (users : List User)
      (sessions : List ConsoleSession) (r : Answer × List ConsoleSession) (token : Text)
      → (opens : Opens fmt crypto secret io v u sessions r)
      → refresh_cookie_value v' ≡ some opens.raw
      → io'.session_fault ≡ none
      → io'.user_fault ≡ none
      → crypto.uuid u.id ≡ ok u.id
      → first_row (λ w. text_eq w.id u.id) users ≡ some u'
      → access_token fmt crypto secret io' u' ≡ ok token
      → handle_refresh fmt crypto secret io' v' users r.1 ≡ (
          if ltb io'.now (io.now + session_ttl)
          then answered (token_response fmt crypto secret token)
          else refuse fmt crypto secret 401 (codes "invalid or expired refresh token"))
  unfolding find_by_token_hash renew_session
  refresh_after_login io io' v v' u u' users sessions r token opens cookie answers answers' spelled
        listed signed =
      let row = session_of fmt crypto secret io v u opens.raw in
      let hash = hash_token fmt crypto secret opens.raw in
      handle_refresh-row io' v' users r.1 opens.raw cookie
      ∙ ap
          (λ (fault : Option Text).
            renew_session fmt crypto secret io' users (find_by_token_hash fault io'.now hash r.1))
          answers
      ∙ ap
          (λ (rows : List ConsoleSession).
            renew_session fmt crypto secret io' users (find_by_token_hash none io'.now hash rows))
          opens.stored
      ∙ ap
          (λ (o : Option ConsoleSession).
            renew_session fmt crypto secret io' users
              (query_result (codes "ConsoleSessionRepository.FindByTokenHash") none o))
          (first_row-snoc hash io'.now sessions row opens.fresh (text_eq_refl hash))
      ∙ renew_if io' users row (is_live io'.now row)
      ∙ ap
          (λ (a : Answer).
            if is_live io'.now row
            then a
            else refuse fmt crypto secret 401 (codes "invalid or expired refresh token"))
          (renew-token io' u.id users u' token answers' spelled listed signed)

  renew-restated :
      (io : Moment) (status : User → Text) (o : Option User)
      → renew fmt crypto secret io
          (query_result (codes "UserRepository.FindByID") none (restated status o))
        ≡ renew fmt crypto secret io (query_result (codes "UserRepository.FindByID") none o)
  unfolding renew
  renew-restated io status none = refl
  renew-restated io status (some u) = refl

  renew-status :
      (io : Moment) (users : List User) (status : User → Text) (fault : Option Text) (id : Text)
      → renew fmt crypto secret io (find_by_id crypto.uuid fault id (with_statuses status users))
        ≡ renew fmt crypto secret io (find_by_id crypto.uuid fault id users)
  unfolding find_by_id
  renew-status io users status (some e) id = refl
  renew-status io users status none id = elim (Result-cases (crypto.uuid id)) [
    | inr (e, bad) ↦ rw (bad, find_by_uuid)
    | inl (key, named) ↦
        rw (named, find_by_uuid, first_row-with_statuses status key users)
          (renew-restated io status (first_row (λ u. text_eq u.id key) users))
  ]

  renew_session-status :
      (io : Moment) (users : List User) (status : User → Text) (l : Lookup ConsoleSession)
      → renew_session fmt crypto secret io (with_statuses status users) l
        ≡ renew_session fmt crypto secret io users l
  unfolding renew_session
  renew_session-status io users status (not_found e) = refl
  renew_session-status io users status (broken e) = refl
  renew_session-status io users status (found s) =
      renew-status io users status io.user_fault s.user_id

  -- A refresh does not look at the state of the account: its answer is the same whatever the states of
  -- the users are.
  pub refresh_ignores_status :
      (io : Moment) (v : Visit) (users : List User) (sessions : List ConsoleSession)
      (status : User → Text)
      → handle_refresh fmt crypto secret io v (with_statuses status users) sessions
        ≡ handle_refresh fmt crypto secret io v users sessions
  unfolding handle_refresh
  refresh_ignores_status io v users sessions status = elim (Option-cases (refresh_cookie_value v)) [
    | inl e ↦ rw (e, handle_refresh)
    | inr (raw, e) ↦
        rw (e, handle_refresh)
          (renew_session-status io users status (
            find_by_token_hash io.session_fault io.now (hash_token fmt crypto secret raw) sessions))
  ]
