-- ===== src/Llm/Dispatcher.antt =====
-- internal/llm/dispatcher.go. Encoding of bytes, encoding/json and the provider behind the HTTP
-- client come as values of `Encoding` and `Surroundings`. The two times of a dispatch are those of
-- the breaker's `Allow` and of the recorded outcome.
pub mod Outcomes
pub mod Providers
use pangreksa_aigateway.Prelude.{
  ℕ, Bool, true, false, not, ◌||◌, List, [], ◌∷◌, ◌++◌, ◌==◌, leb, if◌then◌else◌, Option, none,
  some, Result, ok, err, map_err, length, ◌>>=◌,
}
use pangreksa_aigateway.Prelude.Texts.{Text, codes, text_eq}
use pangreksa_aigateway.Prelude.Dict.{Dict, lookup, insert}
use pangreksa_aigateway.Prelude.Int.{ℤ, pos, eqb_ℤ}
use pangreksa_aigateway.Model.Format.{Format}
use pangreksa_aigateway.Model.Config.{ProxyConfig, GatewayConfig}
use pangreksa_aigateway.Model.Inquiry.{Message, Tool, InquiryRequest}
use pangreksa_aigateway.Crypto.{Bytes, Aead, decrypt}
use pangreksa_aigateway.Llm.Breaker.{CircuitBreaker, allow, record_success, record_failure}

pub record ProviderConfig : Type 0 where
  pub base_url : Text
  pub api_key : Text

pub record Dispatcher : Type 0 where
  pub providers : Dict ProviderConfig
  pub crypto_key : Bytes
  pub cb : CircuitBreaker

-- `base64.StdEncoding.DecodeString`, `[]byte(s)` and `string(b)`.
pub record Encoding : Type 0 where
  pub decode_base64 : Text → Option Bytes
  pub to_bytes : Text → Bytes
  pub of_bytes : Bytes → Text

unfoldable pub provider_endpoint : Text → Text
provider_endpoint provider =
    if text_eq provider (codes "claude") then codes "/v1/messages" else codes "/v1/chat/completions"

pub record OpenAiBody (F : Type 0) : Type 0 where
  pub model : Text
  pub messages : List Message
  pub tools : List Tool
  pub stream : Bool
  pub temperature : F
  pub max_tokens : ℤ

pub record ClaudeBody : Type 0 where
  pub model : Text
  pub messages : List Message
  pub max_tokens : ℤ
  pub stream : Bool

-- The values of `payload`.
pub data Payload (F : Type 0) : Type 0 where
  claude_payload : ClaudeBody → Payload F
  open_ai_payload : OpenAiBody F → Payload F

pub record HttpRequest : Type 0 where
  pub url : Text
  pub body : Text
  pub headers : Dict Text

-- What comes of the POST: no request is built, the exchange fails, the body breaks off, or it is
-- read whole.
pub data HttpReply : Type 0 where
  not_built : Text → HttpReply
  failed : Text → HttpReply
  broken_off : Text → HttpReply
  responded : ℕ → Text → HttpReply

-- json.Marshal, and the provider's reply to a request.
pub record Surroundings (F : Type 0) : Type 0 where
  pub marshal : Payload F → Result Text
  pub server : HttpRequest → HttpReply

module _ {F : Type 0} where
  unfoldable pub payload_of : InquiryRequest F → Payload F
  payload_of req =
      if text_eq req.provider (codes "claude")
      then claude_payload (record {
        model = req.model;
        messages = req.messages;
        max_tokens = if eqb_ℤ req.max_tokens (pos 0) then pos 1024 else req.max_tokens;
        stream = req.stream;
      })
      else open_ai_payload (record {
        model = req.model;
        messages = req.messages;
        tools = req.tools;
        stream = req.stream;
        temperature = req.temperature;
        max_tokens = req.max_tokens;
      })

  unfoldable pub build_body : Surroundings F → InquiryRequest F → Result Text
  build_body io req = map_err (λ e. codes "buildBody: " ++ e) (io.marshal (payload_of req))

  -- The request of `send` with its headers.
  unfoldable pub request_of : ProviderConfig → InquiryRequest F → Text → HttpRequest
  request_of pc req body = record {
    url = pc.base_url ++ provider_endpoint req.provider;
    body = body;
    headers =
        (codes "Content-Type", codes "application/json")
        ∷ (if text_eq req.provider (codes "claude")
            then (codes "x-api-key", pc.api_key)
              ∷ (codes "anthropic-version", codes "2023-06-01")
              ∷ []
            else (codes "Authorization", codes "Bearer " ++ pc.api_key) ∷ []);
  }

module _ (fmt : Format) where
  -- The part of `send` after the request is built.
  unfoldable pub read_reply : HttpReply → Result Text
  read_reply (not_built e) = err (codes "dispatcher.send: build request: " ++ e)
  read_reply (failed e) = err (codes "dispatcher.send: http: " ++ e)
  read_reply (broken_off e) = err (codes "dispatcher.send: read body: " ++ e)
  read_reply (responded status body) =
      if leb 500 status
      then err (
          codes "dispatcher.send: upstream error status "
          ++ (fmt.show_int (pos status) ++ (codes ": " ++ body)))
      else if leb 400 status
      then err (
          codes "dispatcher.send: client error status "
          ++ (fmt.show_int (pos status) ++ (codes ": " ++ body)))
      else ok body

module _ {F : Type 0} (fmt : Format) where
  unfoldable pub send : Surroundings F → ProviderConfig → InquiryRequest F → Result Text
  send io pc req =
      map_err (λ e. codes "dispatcher.send: marshal request: " ++ e) (build_body io req) >>= λ body.
      read_reply fmt (io.server (request_of pc req body))

  unfoldable pub dispatch :
      ℕ → ℕ → Surroundings F → Dispatcher → InquiryRequest F → Result Text × Dispatcher
  dispatch asked ended io d req =
      let (passes, cb) = allow asked req.provider d.cb in
      if not passes
      then (
        err (
            codes "dispatcher.Dispatch: provider="
            ++ (fmt.quote req.provider ++ codes ": circuit breaker open")),
        record d { cb = cb },
      )
      else elim (lookup req.provider d.providers) [
        | none ↦ (
          err (codes "dispatcher.Dispatch: unknown provider " ++ fmt.quote req.provider),
          record d { cb = record_failure ended req.provider cb },
        )
        | some pc ↦ elim (send io pc req) [
          | err e ↦ (
            err (codes "dispatcher.Dispatch: send: " ++ e),
            record d { cb = record_failure ended req.provider cb },
          )
          | ok body ↦ (ok body, record d { cb = record_success req.provider cb })
        ]
      ]

module _ (fmt : Format) (a : Aead) (enc : Encoding) where
  abbrev ciphertext_of : Text → Option Bytes → Bytes
  ciphertext_of api_key_enc none = enc.to_bytes api_key_enc
  ciphertext_of api_key_enc (some ciphertext) = ciphertext

  unfoldable pub decrypt_api_key : Bytes → Text → Result Text
  decrypt_api_key key api_key_enc =
      if length key == 0 || length api_key_enc == 0
      then ok api_key_enc
      else map_err (λ e. codes "dispatcher.decryptAPIKey: " ++ e)
          (decrypt fmt a key (ciphertext_of api_key_enc (enc.decode_base64 api_key_enc)))
        >>= λ plaintext. ok (enc.of_bytes plaintext)

  -- The loop of `buildProviders`: a proxy whose key does not decrypt is left out.
  unfoldable pub add_providers :
      Bytes → Dict ProviderConfig → List ProxyConfig → Dict ProviderConfig
  add_providers key providers [] = providers
  add_providers key providers (proxy ∷ proxies) = elim (decrypt_api_key key proxy.api_key_enc) [
    | err e ↦ add_providers key providers proxies
    | ok api_key ↦
        add_providers key
          (insert proxy.provider (record { base_url = proxy.base_url; api_key = api_key })
            providers)
          proxies
  ]

  unfoldable pub build_providers : Bytes → GatewayConfig → Dict ProviderConfig
  build_providers key cfg = add_providers key [] cfg.proxies

  unfoldable pub new_dispatcher : GatewayConfig → Bytes → CircuitBreaker → Dispatcher
  new_dispatcher cfg key cb = record {
    providers = build_providers key cfg;
    crypto_key = key;
    cb = cb;
  }

  unfoldable pub update : Dispatcher → GatewayConfig → Dispatcher
  update d cfg = record d { providers = build_providers d.crypto_key cfg }
