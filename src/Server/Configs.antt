-- ===== src/Server/Configs.antt =====
-- internal/server/repository/config_store.go, internal/server/configstore/store.go and the two
-- handlers of api/handler.go over them. The table gateway_configs is a list, the newest row first.
-- encoding/json, SHA-256 in hexadecimal and PostgreSQL's JSONB come as a `Codec`.
pub mod Versions
use pangreksa_aigateway.Prelude.{
  ℕ, Bool, true, false, not, ◌&&◌, List, [], ◌∷◌, ◌++◌, ◌==◌, if◌then◌else◌, Option, none, some,
  Result, ok, err, map_err, length,
}
use pangreksa_aigateway.Prelude.Texts.{Text, codes, text_eq}
use pangreksa_aigateway.Model.Config.{GatewayConfig}
use pangreksa_aigateway.Server.Repository.{Exec, is_executed, exec_result}
use pangreksa_aigateway.Server.Http.{
  Request, Response, check_bearer, decode_json, write_json, write_error, Lookup, found, not_found,
  broken, in_context, answer_lookup,
}

-- The body of POST /config.
pub record ConfigPollRequest : Type 0 where
  pub gateway_id : Text
  pub current_version : Text

pub record Codec : Type 0 where
  pub marshal : GatewayConfig → Result Text
  pub unmarshal : Text → Result GatewayConfig
  pub decode : Text → Result GatewayConfig  -- the decoder of a body
  pub jsonb : Text → Text  -- a document as PostgreSQL returns it
  pub digest : Text → Text  -- `fmt.Sprintf("%x", sha256.Sum256(b))`
  pub encode : GatewayConfig → Text  -- the encoder of a response
  pub encode_error : Text → Text
  pub encode_stored : Text → Text  -- the encoder of an `adminConfigResponse`
  pub marshal_poll : ConfigPollRequest → Result Text
  pub decode_poll : Text → Result ConfigPollRequest

pub record ConfigRow : Type 0 where
  pub version : Text
  pub config : Text

module _ (codec : Codec) where
  -- `computeConfigVersion`
  unfoldable pub compute_config_version : GatewayConfig → Result Text
  compute_config_version cfg = elim (codec.marshal (record cfg { version = [] })) [
    | err e ↦ err (codes "computeConfigVersion: marshal: " ++ e)
    | ok b ↦ ok (codec.digest b)
  ]

  -- `ComputeVersion` of the store.
  unfoldable pub compute_version : GatewayConfig → Result Text
  compute_version cfg = elim (codec.marshal (record cfg { version = [] })) [
    | err e ↦ err (codes "configstore.ComputeVersion: marshal: " ++ e)
    | ok b ↦ ok (codec.digest b)
  ]

  -- The insert at the end of `Upsert`.
  unfoldable pub insert_config : Exec → Text → Text → List ConfigRow → Result Text × List ConfigRow
  insert_config x version b rows = (
    elim (exec_result (codes "ConfigStoreRepository.Upsert") x) [
      | ok _ ↦ ok version
      | err e ↦ err e
    ],
    if is_executed x then record { version = version; config = codec.jsonb b } ∷ rows else rows,
  )

  unfoldable pub upsert : Exec → GatewayConfig → List ConfigRow → Result Text × List ConfigRow
  upsert x cfg rows = elim (compute_config_version cfg) [
    | err e ↦ (err (codes "ConfigStoreRepository.Upsert: compute version: " ++ e), rows)
    | ok version ↦ elim (codec.marshal (record cfg { version = version })) [
      | err e ↦ (err (codes "ConfigStoreRepository.Upsert: marshal config: " ++ e), rows)
      | ok b ↦ insert_config x version b rows
    ]
  ]

  unfoldable pub read_config : Text → Lookup GatewayConfig
  read_config text = elim (codec.unmarshal text) [
    | err e ↦ broken (codes "ConfigStoreRepository.GetCurrent: unmarshal: " ++ e)
    | ok cfg ↦ found cfg
  ]

  -- `GetCurrent` of the repository; the query fails with a message, or gives the newest row.
  unfoldable pub get_current : Option Text → List ConfigRow → Lookup GatewayConfig
  get_current (some e) rows = broken (codes "ConfigStoreRepository.GetCurrent: scan: " ++ e)
  get_current none [] = not_found (codes "ConfigStoreRepository.GetCurrent: not found")
  get_current none (row ∷ rows) = read_config row.config

  -- `Store.GetCurrent` and `Store.Update`
  unfoldable pub store_get_current : Option Text → List ConfigRow → Lookup GatewayConfig
  store_get_current fault rows = in_context (codes "Store.GetCurrent: ") (get_current fault rows)

  unfoldable pub update : Exec → GatewayConfig → List ConfigRow → Result Text × List ConfigRow
  update x cfg rows =
      let (result, rows') = upsert x cfg rows in
      (map_err (λ e. codes "Store.Update: " ++ e) result, rows')

  -- The answer of `handleConfig` to a daemon with this version.
  unfoldable pub answer_poll : ConfigPollRequest → GatewayConfig → Response
  answer_poll req cfg =
      if not (length req.current_version == 0) && text_eq req.current_version cfg.version
      then record { status = 304; body = [] }
      else write_json 200 (codec.encode cfg)

  -- `handleConfig`
  unfoldable pub handle_config : Text → Option Text → List ConfigRow → Request → Response
  handle_config daemon_api_key fault rows r =
      if check_bearer r daemon_api_key
      then elim (decode_json codec.decode_poll r) [
        | err e ↦ write_error codec.encode_error 400 (codes "invalid request body")
        | ok req ↦
            answer_lookup codec.encode_error (codes "no config stored") (answer_poll req)
              (store_get_current fault rows)
      ]
      else write_error codec.encode_error 401 (codes "unauthorized")

  unfoldable pub answer_update : Result Text × List ConfigRow → Response × List ConfigRow
  answer_update (ok version, rows) = (write_json 200 (codec.encode_stored version), rows)
  answer_update (err e, rows) = (write_error codec.encode_error 500 (codes "internal error"), rows)

  -- `handleAdminConfig`
  unfoldable pub handle_admin_config :
      Text → Exec → Request → List ConfigRow → Response × List ConfigRow
  handle_admin_config admin_api_key x r rows =
      if check_bearer r admin_api_key
      then elim (decode_json codec.decode r) [
        | err e ↦ (write_error codec.encode_error 400 (codes "invalid config body"), rows)
        | ok cfg ↦ answer_update (update x cfg rows)
      ]
      else (write_error codec.encode_error 401 (codes "unauthorized"), rows)
