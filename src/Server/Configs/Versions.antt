-- ===== src/Server/Configs/Versions.antt =====
-- config_store.go: an update that is confirmed is what the next reader gets, under its version.
use pangreksa_aigateway.Prelude.{
  ◌≡◌, refl, sym, ap, ◌∙◌, ◌⊎◌, true, List, [], ◌∷◌, none, Result, ok, err, length, arith, inl, inr,
  Bool-cases, Result-cases,
}
use mathlib.Core.Path.{subst}
use pangreksa_aigateway.Prelude.Texts.{Text}
use pangreksa_aigateway.Prelude.Actions.{map_err-ok}
use pangreksa_aigateway.Model.Config.{GatewayConfig}
use pangreksa_aigateway.Server.Repository.{Exec, executed, failed}
use pangreksa_aigateway.Server.Http.{Request, check_bearer, decode_json, found}
use pangreksa_aigateway.Server.Configs.{
  ConfigPollRequest, Codec, ConfigRow, compute_config_version, insert_config, upsert, read_config,
  get_current, update, answer_update, handle_admin_config,
}

module _ (codec : Codec) where
  abbrev pub IsVersion : Text → Type 0
  IsVersion v = (input : Text) × (v ≡ codec.digest input)

  -- What the code relies on: the length of a digest in hexadecimal, that a configuration comes back
  -- from JSONB as it was marshalled, and that responses keep the version. A configuration that was read can be encoded, and so
  -- can the two texts of a poll.
  pub record Laws : Type 0 where
    pub length-digest : (b : Text) → length (codec.digest b) ≡ 64
    pub stored :
        (cfg : GatewayConfig) (b : Text)
        → IsVersion cfg.version
        → codec.marshal cfg ≡ ok b
        → codec.unmarshal (codec.jsonb b) ≡ ok cfg
    pub sent :
        (t : Text) (cfg : GatewayConfig)
        → codec.unmarshal t ≡ ok cfg
        → IsVersion cfg.version
        → (read : GatewayConfig) × (codec.decode (codec.encode cfg) ≡ ok read)
          × (read.version ≡ cfg.version)
    pub polled :
        (req : ConfigPollRequest)
        → (req.current_version ≡ []) ⊎ IsVersion req.current_version
        → (b : Text) × (read : ConfigPollRequest) × (codec.marshal_poll req ≡ ok b)
          × (codec.decode_poll b ≡ ok read)
          × (read.current_version ≡ req.current_version)

  -- Readers of the table get a configuration with this version.
  pub record IsCurrent (v : Text) (rows : List ConfigRow) : Type 0 where
    pub config : GatewayConfig
    pub text : Text
    pub reads : codec.unmarshal text ≡ ok config
    pub newest : get_current codec none rows ≡ found config
    pub version : config.version ≡ v
    pub hashed : IsVersion v

  compute-IsVersion :
      (cfg : GatewayConfig) (v : Text) → compute_config_version codec cfg ≡ ok v → IsVersion v
  unfolding compute_config_version
  compute-IsVersion cfg v h = elim (Result-cases (codec.marshal (record cfg { version = [] }))) [
    | inl (b, e) ↦ (b, ground (arith, e))
    | inr (m, e) ↦ absurd (ground (arith, e))
  ]

  -- An insert that reports success is done.
  insert-executed :
      (x : Exec) (v b : Text) (rows : List ConfigRow) (w : Text)
      → (insert_config codec x v b rows).0 ≡ ok w
      → (w ≡ v)
        × ((insert_config codec x v b rows).1
            ≡ record { version = v; config = codec.jsonb b } ∷ rows)
  unfolding insert_config
  insert-executed executed v b rows w h = (cc, refl)
  insert-executed (failed e arrived) v b rows w h = cc

  upsert-IsCurrent :
      Laws
      → (x : Exec) (cfg : GatewayConfig) (rows : List ConfigRow) (v : Text)
      → (upsert codec x cfg rows).0 ≡ ok v
      → IsCurrent v (upsert codec x cfg rows).1
        × (get_current codec none (upsert codec x cfg rows).1 ≡ found (record cfg { version = v }))
        × (compute_config_version codec cfg ≡ ok v)
  unfolding upsert get_current read_config
  upsert-IsCurrent laws x cfg rows v h = elim (Result-cases (compute_config_version codec cfg)) [
    | inr (m, e) ↦ absurd (cc (h, e))
    | inl (w, computed) ↦ elim (Result-cases (codec.marshal (record cfg { version = w }))) [
      | inr (m, e) ↦ absurd (cc (h, computed, e))
      | inl (b, marshalled) ↦
          let inserted = insert-executed x w b rows v (rw (computed, upsert, marshalled) at h) in
          let hashed = compute-IsVersion cfg w computed in
          let reads = laws.stored (record cfg { version = w }) b hashed marshalled in
          (
            rw (computed, upsert, marshalled)
                (subst (IsCurrent v) (sym inserted.1) (record {
                  config = record cfg { version = w };
                  text = codec.jsonb b;
                  reads = reads;
                  newest = rw (reads, read_config);
                  version = sym inserted.0;
                  hashed = (hashed.0, inserted.0 ∙ hashed.1);
                })),
            rw (computed, upsert, marshalled)
                (ap (get_current codec none) inserted.1
                  ∙ (rw (reads, read_config))
                  ∙ ap (λ (u : Text). found (record cfg { version = u })) (sym inserted.0)),
            computed ∙ ap ok (sym inserted.0),
          )
    ]
  ]

  answer-ok :
      (r : Result Text × List ConfigRow)
      → (answer_update codec r).0.status ≡ 200
      → (v : Text) × (r.0 ≡ ok v)
        × ((answer_update codec r).0.body ≡ codec.encode_stored v)
        × ((answer_update codec r).1 ≡ r.1)
  unfolding answer_update
  answer-ok (ok v, rows) h = (v, refl, refl, refl)
  answer-ok (err e, rows) h = absurd (omega arith)

  update-ok :
      (x : Exec) (cfg : GatewayConfig) (rows : List ConfigRow) (v : Text)
      → (update codec x cfg rows).0 ≡ ok v
      → (upsert codec x cfg rows).0 ≡ ok v
  unfolding update
  update-ok x cfg rows v h = map_err-ok _ _ v h

  update-rows :
      (x : Exec) (cfg : GatewayConfig) (rows : List ConfigRow)
      → (update codec x cfg rows).1 ≡ (upsert codec x cfg rows).1
  unfolding update
  update-rows x cfg rows = refl

  compute-unversioned :
      (cfg : GatewayConfig)
      → compute_config_version codec (record cfg { version = [] })
        ≡ compute_config_version codec cfg
  unfolding compute_config_version
  compute-unversioned cfg = refl

  -- If `handleAdminConfig` answers 200, the request had the admin's key and a body that decodes, the
  -- version in the answer is the hash of the configuration of the body, and the next reader of the
  -- table gets this configuration with this version in place of the one that the body claimed.
  pub handle_admin_config-IsCurrent :
      Laws
      → (admin_api_key : Text) (x : Exec) (r : Request) (rows : List ConfigRow)
      → (handle_admin_config codec admin_api_key x r rows).0.status ≡ 200
      → (cfg : GatewayConfig) × (v : Text) × (check_bearer r admin_api_key ≡ true)
        × (decode_json codec.decode r ≡ ok cfg)
        × (compute_config_version codec (record cfg { version = [] }) ≡ ok v)
        × ((handle_admin_config codec admin_api_key x r rows).0.body ≡ codec.encode_stored v)
        × IsCurrent v (handle_admin_config codec admin_api_key x r rows).1
        × (get_current codec none (handle_admin_config codec admin_api_key x r rows).1
            ≡ found (record cfg { version = v }))
  unfolding handle_admin_config
  handle_admin_config-IsCurrent laws admin_api_key x r rows h =
      elim (Bool-cases (check_bearer r admin_api_key)) [
        | inr bad ↦ absurd (omega (arith, rw (bad, handle_admin_config) at h))
        | inl authorised ↦ elim (Result-cases (decode_json codec.decode r)) [
          | inr (m, e) ↦ absurd (omega (arith, rw (authorised, handle_admin_config, e) at h))
          | inl (cfg, decoded) ↦
              let (v, updated, answered, stays) =
                answer-ok (update codec x cfg rows)
                  (rw (authorised, handle_admin_config, decoded) at h) in
              let (current, newest, computed) =
                upsert-IsCurrent laws x cfg rows v (update-ok x cfg rows v updated) in
              (
                cfg,
                v,
                authorised,
                decoded,
                compute-unversioned cfg ∙ computed,
                rw (authorised, handle_admin_config, decoded) answered,
                rw (authorised, handle_admin_config, decoded)
                    (subst (IsCurrent v) (sym (stays ∙ update-rows x cfg rows)) current),
                rw (authorised, handle_admin_config, decoded)
                    (ap (get_current codec none) (stays ∙ update-rows x cfg rows) ∙ newest),
              )
        ]
      ]
