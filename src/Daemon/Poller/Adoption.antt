-- ===== src/Daemon/Poller/Adoption.antt =====
-- poller.go against the handler that it polls: the daemon adopts the current configuration.
use mathlib.Core.Path.{subst}
use pangreksa_aigateway.Prelude.{
  ◌≡◌, ◌≢◌, refl, sym, ap, ◌∙◌, ◌⊎◌, true, false, List, [], ◌∷◌, ◌++◌, Option, none, some, ok,
  length, arith, inl, inr, Bool-cases,
}
use pangreksa_aigateway.Prelude.Texts.{
  Text, codes, text_eq, text_eq_refl, text_eq_sound, has_prefix-append,
}
use pangreksa_aigateway.Model.Format.{Format}
use pangreksa_aigateway.Model.Config.{GatewayConfig}
use pangreksa_aigateway.Server.Http.{bearer, behind, check_bearer, decode_json, found}
use pangreksa_aigateway.Server.Configs.{
  ConfigPollRequest, Codec, ConfigRow, get_current, store_get_current, answer_poll, handle_config,
}
use pangreksa_aigateway.Server.Configs.Versions.{IsVersion, Laws, IsCurrent}
use pangreksa_aigateway.Daemon.Poller.{
  Poller, Poll, State, read_response, send, fetch, forward, fetch_and_forward, polls,
}

pub check_bearer_own :
    (key : Text) (body : Option Text)
    → check_bearer (record { authorization = codes "Bearer " ++ key; body = body }) key ≡ true
unfolding check_bearer behind
check_bearer_own key body = ground (arith, has_prefix-append bearer key, text_eq_refl key)

module _ (fmt : Format) (codec : Codec) where
  -- A poll that reaches the server and whose outcome is taken.
  abbrev pub served : Text → List ConfigRow → Poll
  served daemon_api_key rows = record {
    build_error = none;
    server = λ r. ok (handle_config codec daemon_api_key none rows r);
    cancelled = false;
  }

  -- The handler's answer to a request with the key.
  handle_config-answer :
      (key body : Text) (rows : List ConfigRow) (req : ConfigPollRequest) (cfg : GatewayConfig)
      → codec.decode_poll body ≡ ok req
      → get_current codec none rows ≡ found cfg
      → handle_config codec key none rows
          (record { authorization = codes "Bearer " ++ key; body = some body })
        ≡ answer_poll codec req cfg
  unfolding handle_config store_get_current decode_json
  handle_config-answer key body rows req cfg decoded current =
      rw (check_bearer_own key (some body)) (rw (decoded, handle_config, current))

  -- Of the version that the daemon has.
  abbrev IsHeld : Text → Type 0
  IsHeld v = (v ≡ []) ⊎ IsVersion codec v

  fetch-answer :
      Laws codec
      → (p : Poller) (rows : List ConfigRow) (cfg : GatewayConfig) → IsHeld p.current_version
      → get_current codec none rows ≡ found cfg
      → (req : ConfigPollRequest) × (req.current_version ≡ p.current_version)
        × (fetch fmt codec (served p.api_key rows) p p.current_version
            ≡ read_response fmt codec (answer_poll codec req cfg))
  unfolding fetch send
  fetch-answer laws p rows cfg held current =
      let (body, req, marshalled, decoded, same) =
        laws.polled (record { gateway_id = p.gateway_id; current_version = p.current_version })
          held in
      (
        req,
        same,
        rw (marshalled, fetch)
            (ap (read_response fmt codec)
              (handle_config-answer p.api_key body rows req cfg decoded current)),
      )

  -- An answer with the version that is held.
  answer-same :
      (req : ConfigPollRequest) (cfg : GatewayConfig)
      → length req.current_version ≢ 0
      → req.current_version ≡ cfg.version
      → read_response fmt codec (answer_poll codec req cfg) ≡ ok none
  unfolding read_response answer_poll
  answer-same req cfg some_version same =
      let e : text_eq req.current_version cfg.version ≡ true = rw same (text_eq_refl cfg.version) in
      ground (arith, e)

  answer-new :
      (req : ConfigPollRequest) (cfg read : GatewayConfig)
      → req.current_version ≢ cfg.version
      → codec.decode (codec.encode cfg) ≡ ok read
      → read_response fmt codec (answer_poll codec req cfg) ≡ ok (some read)
  unfolding read_response answer_poll
  answer-new req cfg read differs decoded =
      elim (Bool-cases (text_eq req.current_version cfg.version)) [
        | inl e ↦ absurd (differs (text_eq_sound req.current_version cfg.version e))
        | inr e ↦ ground (arith, e, decoded)
      ]

  -- The daemon had the version already and nothing changes, or it hands one configuration with the
  -- version on and keeps the version.
  pub data Adopts (v : Text) (st : State) : State → Type 0 where
    unchanged : st.poller.current_version ≡ v → Adopts v st st
    adopted :
        (cfg : GatewayConfig)
        → st.poller.current_version ≢ v
        → cfg.version ≡ v
        → Adopts v st (record {
          poller = record st.poller { current_version = v };
          forwarded = st.forwarded ++ cfg ∷ [];
        })

  version-ne-empty : Laws codec → (v : Text) → IsVersion codec v → length v ≢ 0
  version-ne-empty laws v (input, e) z = omega (arith, ap length e, laws.length-digest input)

  module _ (laws : Laws codec) (rows : List ConfigRow) (v : Text)
      (current : IsCurrent codec v rows) where
    poll_unchanged :
        (st : State)
        → st.poller.current_version ≡ v
        → fetch_and_forward fmt codec (served st.poller.api_key rows) st ≡ st
    unfolding fetch_and_forward forward
    poll_unchanged st held =
        let (req, same, e) =
          fetch-answer laws st.poller rows current.config
            (inr (current.hashed.0, held ∙ current.hashed.1)) current.newest in
        let some_version =
          version-ne-empty laws req.current_version
            (current.hashed.0, same ∙ held ∙ current.hashed.1) in
        rw (
          e ∙ answer-same req current.config some_version (same ∙ held ∙ sym current.version),
          forward,
        )

    poll_adopted :
        (st : State)
        → IsHeld st.poller.current_version
        → st.poller.current_version ≢ v
        → Adopts v st (fetch_and_forward fmt codec (served st.poller.api_key rows) st)
    unfolding fetch_and_forward forward
    poll_adopted st held differs =
        let (req, same, e) = fetch-answer laws st.poller rows current.config held current.newest in
        let (read, decoded, version) =
          laws.sent current.text current.config current.reads
            (current.hashed.0, current.version ∙ current.hashed.1) in
        let new =
          answer-new req current.config read (λ h. differs (sym same ∙ h ∙ current.version))
            decoded in
        rw (e ∙ new, forward)
          (subst
            (λ (w : Text). Adopts v st (record {
              poller = record st.poller { current_version = w };
              forwarded = st.forwarded ++ read ∷ [];
            }))
            (sym (version ∙ current.version)) (adopted read differs (version ∙ current.version)))

    poll_once :
        (st : State)
        → IsHeld st.poller.current_version
        → Adopts v st (fetch_and_forward fmt codec (served st.poller.api_key rows) st)
    poll_once st held = elim (Bool-cases (text_eq st.poller.current_version v)) [
      | inl e ↦
          let same = text_eq_sound st.poller.current_version v e in
          subst (Adopts v st) (sym (poll_unchanged st same)) (unchanged same)
      | inr e ↦ poll_adopted st held (λ same. cc (e, same, text_eq_refl v))
    ]

    Adopts-stays :
        {st st' : State}
        → Adopts v st st'
        → fetch_and_forward fmt codec (served st.poller.api_key rows) st' ≡ st'
    Adopts-stays {st} (unchanged held) = poll_unchanged st held
    Adopts-stays {st} (adopted cfg differs version) =
        poll_unchanged
          (record {
            poller = record st.poller { current_version = v };
            forwarded = st.forwarded ++ cfg ∷ [];
          })
          refl

    -- If the table's newest configuration has this version, a poll that reaches the server with the
    -- daemon's key and whose outcome is taken makes it the daemon's: either the daemon had the version
    -- and nothing changes, or one configuration with this version is handed on and the version is kept.
    -- A further poll of the same table changes nothing.
    pub poll-Adopts :
        (st : State)
        → (st.poller.current_version ≡ []) ⊎ IsVersion codec st.poller.current_version
        → Adopts v st (fetch_and_forward fmt codec (served st.poller.api_key rows) st)
          × (polls fmt codec (served st.poller.api_key rows ∷ served st.poller.api_key rows ∷ []) st
              ≡ fetch_and_forward fmt codec (served st.poller.api_key rows) st)
    unfolding polls
    poll-Adopts st held = let first = poll_once st held in (first, Adopts-stays first)
