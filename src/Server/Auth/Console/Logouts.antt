-- ===== src/Server/Auth/Console/Logouts.antt =====
-- auth_handler.go: a logout ends the session of its cookie.
use mathlib.Core.Path.{subst}
use pangreksa_aigateway.Prelude.{
  ℕ, ◌≤◌, ◌≡◌, refl, ap, ◌∙◌, Bool, true, false, ◌&&◌, List, [], ◌∷◌, Option, none, some, any,
  arith, inl, inr, Bool-cases, Option-cases,
}
use pangreksa_aigateway.Prelude.Texts.{Text, codes, text_eq, text_eq_refl, text_eq_sound}
use pangreksa_aigateway.Model.Format.{Format}
use pangreksa_aigateway.Server.Repository.{is_executed}
use pangreksa_aigateway.Server.Auth.Sessions.{
  User, ConsoleSession, first_row, query_result, has_hash, is_live, find_by_token_hash, without,
  delete,
}
use pangreksa_aigateway.Server.Auth.Console.{
  Crypto, Moment, hash_token, refuse, renew_session, handle_refresh, close_session, handle_logout,
}
use pangreksa_aigateway.Server.Auth.Visits.{Visit, refresh_cookie_value}
use pangreksa_aigateway.Server.Auth.Console.Refreshes.{first_row-none, handle_refresh-row}

-- The unique column of the table: no two sessions have the same hash.
abbrev pub HasUniqueHashes : List ConsoleSession → Type 0
HasUniqueHashes [] = Unit {0}
HasUniqueHashes (s ∷ sessions) =
    (any (has_hash s.refresh_token_hash) sessions ≡ false) × HasUniqueHashes sessions

abbrev pub live_row : Text → ℕ → List ConsoleSession → Option ConsoleSession
live_row hash now sessions = first_row (λ s. has_hash hash s && is_live now s) sessions

without-any :
    (p test : ConsoleSession → Bool) (sessions : List ConsoleSession)
    → any p sessions ≡ false
    → any p (without test sessions) ≡ false
unfolding without
without-any p test [] h = refl
without-any p test (s ∷ sessions) h = ground (arith, without-any p test sessions)

-- A session that has expired stays so.
live_row-none :
    (hash : Text) (now later : ℕ) (sessions : List ConsoleSession)
    → now ≤ later
    → live_row hash now sessions ≡ none
    → live_row hash later sessions ≡ none
unfolding first_row
live_row-none hash now later [] le h = refl
live_row-none hash now later (s ∷ sessions) le h =
    ground (arith, live_row-none hash now later sessions)

-- Without the live session of a hash there is none with this hash.
without_live :
    (hash : Text) (now : ℕ) (sessions : List ConsoleSession) (s : ConsoleSession)
    → HasUniqueHashes sessions
    → live_row hash now sessions ≡ some s
    → any (has_hash hash) (without (λ r. text_eq r.id s.id) sessions) ≡ false
unfolding first_row without
without_live hash now [] s u h = cc
without_live hash now (r ∷ sessions) s u h = elim (Bool-cases (has_hash hash r)) [
  | inl own ↦
      let same : r.refresh_token_hash ≡ hash = text_eq_sound r.refresh_token_hash hash own in
      let others : any (has_hash hash) sessions ≡ false =
        subst (λ (t : Text). any (has_hash t) sessions ≡ false) same u.0 in
      elim (Bool-cases (is_live now r)) [
        | inl lives ↦
            let e : r ≡ s = ground (arith, own, lives) in
            let same_id : text_eq r.id s.id ≡ true =
              subst (λ (t : ConsoleSession). text_eq r.id t.id ≡ true) e (text_eq_refl r.id) in
            rw same_id (without-any (has_hash hash) (λ q. text_eq q.id s.id) sessions others)
        | inr dead ↦ absurd (ground (arith, first_row-none hash now sessions others))
      ]
  | inr other ↦ ground (arith, other, without_live hash now sessions s u.1)
]

module _ (fmt : Format) (crypto : Crypto) (secret : Text) where
  handle_logout-rows :
      (io : Moment) (v : Visit) (sessions : List ConsoleSession) (raw : Text)
      → refresh_cookie_value v ≡ some raw
      → io.session_fault ≡ none
      → (handle_logout fmt crypto secret io v sessions).1
        ≡ close_session fmt crypto secret io
            (query_result
              (codes "ConsoleSessionRepository.FindByTokenHash")
              none
              (live_row (hash_token fmt crypto secret raw) io.now sessions))
            sessions
  unfolding handle_logout find_by_token_hash
  handle_logout-rows io v sessions raw cookie answers =
      rw (cookie, handle_logout)
        (ap
          (λ (fault : Option Text).
            close_session fmt crypto secret io
              (query_result (codes "ConsoleSessionRepository.FindByTokenHash") fault
                (live_row (hash_token fmt crypto secret raw) io.now sessions))
              sessions)
          answers)

  -- No live session with this hash is left.
  close_session-none :
      (io : Moment) (hash : Text) (later : ℕ) (sessions : List ConsoleSession)
      → HasUniqueHashes sessions
      → is_executed io.exec ≡ true
      → io.now ≤ later
      → live_row hash later (
          close_session fmt crypto secret io
            (query_result
              (codes "ConsoleSessionRepository.FindByTokenHash")
              none
              (live_row hash io.now sessions))
            sessions)
        ≡ none
  unfolding close_session delete
  close_session-none io hash later sessions u runs le =
      elim (Option-cases (live_row hash io.now sessions)) [
        | inl e ↦ rw (e, close_session) (live_row-none hash io.now later sessions le e)
        | inr (s, e) ↦
            rw (e, close_session, runs)
              (first_row-none hash later (without (λ r. text_eq r.id s.id) sessions)
                (without_live hash io.now sessions s u e))
      ]

  -- After a logout that brings the refresh cookie, on a database that answers and carries the delete
  -- out, no refresh with this cookie succeeds any more: it is refused with 401, at every later time.
  pub refresh_after_logout :
      (io io' : Moment) (v v' : Visit) (users : List User) (sessions : List ConsoleSession)
      (raw : Text)
      → HasUniqueHashes sessions
      → refresh_cookie_value v ≡ some raw
      → refresh_cookie_value v' ≡ some raw
      → io.session_fault ≡ none
      → io'.session_fault ≡ none
      → is_executed io.exec ≡ true
      → io.now ≤ io'.now
      → handle_refresh fmt crypto secret io' v' users
          (handle_logout fmt crypto secret io v sessions).1
        ≡ refuse fmt crypto secret 401 (codes "invalid or expired refresh token")
  unfolding find_by_token_hash renew_session
  refresh_after_logout io io' v v' users sessions raw u cookie cookie' answers answers' runs le =
      let hash = hash_token fmt crypto secret raw in
      handle_refresh-row fmt crypto secret io' v' users
        (handle_logout fmt crypto secret io v sessions).1 raw cookie'
      ∙ ap
          (λ (rows : List ConsoleSession).
            renew_session fmt crypto secret io' users
              (find_by_token_hash io'.session_fault io'.now hash rows))
          (handle_logout-rows io v sessions raw cookie answers)
      ∙ ap
          (λ (fault : Option Text). renew_session fmt crypto secret io' users (
            find_by_token_hash fault io'.now hash (
              close_session fmt crypto secret io
                (query_result (codes "ConsoleSessionRepository.FindByTokenHash") none
                  (live_row hash io.now sessions))
                sessions)))
          answers'
      ∙ ap
          (λ (o : Option ConsoleSession).
            renew_session fmt crypto secret io' users
              (query_result (codes "ConsoleSessionRepository.FindByTokenHash") none o))
          (close_session-none io hash io'.now sessions u runs le)
