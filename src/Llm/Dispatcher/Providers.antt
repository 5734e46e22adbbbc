-- ===== src/Llm/Dispatcher/Providers.antt =====
-- dispatcher.go: the providers after a reload of the configuration.
use pangreksa_aigateway.Prelude.{
  ◌≡◌, refl, ap, ◌∙◌, Bool, true, false, List, [], ◌∷◌, if◌then◌else◌, Option, none, some, Result,
  ok, err, inl, inr, Result-cases,
}
use pangreksa_aigateway.Prelude.Texts.{Text, text_eq}
use pangreksa_aigateway.Prelude.Dict.{Dict, lookup, insert, lookup-insert}
use pangreksa_aigateway.Model.Format.{Format}
use pangreksa_aigateway.Model.Config.{ProxyConfig, GatewayConfig}
use pangreksa_aigateway.Crypto.{Bytes, Aead}
use pangreksa_aigateway.Llm.Dispatcher.{
  ProviderConfig, Dispatcher, Encoding, decrypt_api_key, add_providers, build_providers, update,
}

-- The provider that a proxy stands for, if its key could be decrypted.
abbrev pub with_key : ProxyConfig → Result Text → Option ProviderConfig
with_key proxy (err e) = none
with_key proxy (ok api_key) = some (record { base_url = proxy.base_url; api_key = api_key })

abbrev pub or_else : Option ProviderConfig → Option ProviderConfig → Option ProviderConfig
or_else none found = found
or_else (some pc) found = some pc

module _ (fmt : Format) (a : Aead) (enc : Encoding) where
  -- The last proxy of this provider whose key can be decrypted.
  unfoldable pub last_decrypted :
      Bytes → Text → Option ProviderConfig → List ProxyConfig → Option ProviderConfig
  last_decrypted key p found [] = found
  last_decrypted key p found (proxy ∷ proxies) =
      last_decrypted key p
        (if text_eq proxy.provider p
          then or_else (with_key proxy (decrypt_api_key fmt a enc key proxy.api_key_enc)) found
          else found)
        proxies

  if_same : (b : Bool) (x : Option ProviderConfig) → (if b then x else x) ≡ x
  if_same true x = refl
  if_same false x = refl

  lookup-add_providers :
      (key : Bytes) (p : Text) (providers : Dict ProviderConfig) (proxies : List ProxyConfig)
      → lookup p (add_providers fmt a enc key providers proxies)
        ≡ last_decrypted key p (lookup p providers) proxies
  unfolding add_providers last_decrypted
  lookup-add_providers key p providers [] = refl
  lookup-add_providers key p providers (proxy ∷ proxies) =
      elim (Result-cases (decrypt_api_key fmt a enc key proxy.api_key_enc)) [
        | inr (e, bad) ↦
            rw (bad, add_providers, if_same (text_eq proxy.provider p) (lookup p providers))
              (lookup-add_providers key p providers proxies)
        | inl (api_key, good) ↦
            let pc : ProviderConfig = record { base_url = proxy.base_url; api_key = api_key } in
            rw (good, add_providers)
              (lookup-add_providers key p (insert proxy.provider pc providers) proxies
                ∙ ap (λ found. last_decrypted key p found proxies)
                    (lookup-insert proxy.provider p pc providers))
      ]

  -- After `Update` a provider is known exactly if the new configuration has a proxy of it whose key
  -- can be decrypted; then its address and key are those of the last such proxy. What the dispatcher
  -- knew before is gone.
  pub lookup-update_providers :
      (d : Dispatcher) (cfg : GatewayConfig) (p : Text)
      → lookup p (update fmt a enc d cfg).providers ≡ last_decrypted d.crypto_key p none cfg.proxies
  unfolding update build_providers lookup
  lookup-update_providers d cfg p = lookup-add_providers d.crypto_key p [] cfg.proxies
