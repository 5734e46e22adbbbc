-- ===== src/Daemon/Poller.antt =====
-- internal/poller/poller.go. The loop of `Start` is a list of polls: the first is immediate, the
-- others come at the ticks. What comes of one poll on the way to the Central Server is a `Poll`.
pub mod Adoption
use pangreksa_aigateway.Prelude.{
  ℕ, Bool, true, false, List, [], ◌∷◌, ◌++◌, ◌==◌, ltb, if◌then◌else◌, Option, none, some, Result,
  ok, err, map_err,
}
use pangreksa_aigateway.Prelude.Texts.{Text, codes}
use pangreksa_aigateway.Prelude.Int.{pos}
use pangreksa_aigateway.Model.Format.{Format}
use pangreksa_aigateway.Model.Config.{GatewayConfig}
use pangreksa_aigateway.Server.Configs.{Codec}
use pangreksa_aigateway.Server.Http.{Request, Response}

pub record Poller : Type 0 where
  pub server_url : Text
  pub gateway_id : Text
  pub api_key : Text
  pub interval_sec : ℕ
  pub current_version : Text

unfoldable pub new_poller : Text → Text → Text → ℕ → Poller
new_poller server_url gateway_id api_key interval_sec = record {
  server_url = server_url;
  gateway_id = gateway_id;
  api_key = api_key;
  interval_sec = if ltb interval_sec 5 then 5 else interval_sec;
  current_version = [];
}

-- What comes of the request of a poll, and whether the context ends before the configuration is
-- taken from the channel.
pub record Poll : Type 0 where
  pub build_error : Option Text
  pub server : Request → Result Response
  pub cancelled : Bool

-- The poller, and the configurations that were taken from its channel, the newest last.
pub record State : Type 0 where
  pub poller : Poller
  pub forwarded : List GatewayConfig

module _ (fmt : Format) (codec : Codec) where
  -- The part of `fetch` after the response has come; `none` is an unchanged configuration.
  unfoldable pub read_response : Response → Result (Option GatewayConfig)
  read_response resp =
      if resp.status == 304
      then ok none
      else if resp.status == 200
      then elim (codec.decode resp.body) [
        | err e ↦ err (codes "poller.fetch: decode response: " ++ e)
        | ok cfg ↦ ok (some cfg)
      ]
      else err (codes "poller.fetch: unexpected status " ++ fmt.show_int (pos resp.status))

  unfoldable pub send : Poll → Poller → Text → Result (Option GatewayConfig)
  send io p body = elim io.build_error [
    | some e ↦ err (codes "poller.fetch: build request: " ++ e)
    | none ↦
        elim (io.server
          (record { authorization = codes "Bearer " ++ p.api_key; body = some body })) [
            | err e ↦ err (codes "poller.fetch: http request: " ++ e)
            | ok resp ↦ read_response resp
          ]
  ]

  unfoldable pub fetch : Poll → Poller → Text → Result (Option GatewayConfig)
  fetch io p current_version =
      elim (codec.marshal_poll
        (record { gateway_id = p.gateway_id; current_version = current_version })) [
          | err e ↦ err (codes "poller.fetch: marshal request: " ++ e)
          | ok body ↦ send io p body
        ]

  -- What `fetchAndForward` does with the outcome.
  unfoldable pub forward : Bool → Result (Option GatewayConfig) → State → State
  forward cancelled (err e) st = st
  forward cancelled (ok none) st = st
  forward cancelled (ok (some cfg)) st = record {
    poller = record st.poller { current_version = cfg.version };
    forwarded = if cancelled then st.forwarded else st.forwarded ++ cfg ∷ [];
  }

  unfoldable pub fetch_and_forward : Poll → State → State
  fetch_and_forward io st = forward io.cancelled (fetch io st.poller st.poller.current_version) st

  -- The polls of `Start`.
  unfoldable pub polls : List Poll → State → State
  polls [] st = st
  polls (io ∷ ios) st = polls ios (fetch_and_forward io st)
