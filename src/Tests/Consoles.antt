-- ===== src/Tests/Consoles.antt =====
-- Runs of the configuration's way to the daemon, and of the console's sessions.
use pangreksa_aigateway.Prelude.{
  ℕ, zero, suc, ◌≡◌, refl, ap, sym, Bool, true, ◌&&◌, ◌==◌, if◌then◌else◌, List, [], ◌∷◌, length,
  none, some, Result, ok, err, arith, inl, inr, Bool-cases,
}
use pangreksa_aigateway.Prelude.Texts.{Text, codes, text_eq, text_eq_sound, has_prefix}
use pangreksa_aigateway.Prelude.Int.{ℤ, pos, negsuc, eqb_ℤ}
use pangreksa_aigateway.Model.Config.{ProxyConfig, GatewayConfig}
use pangreksa_aigateway.Server.Http.{Request, check_bearer, decode_json, behind, found}
use pangreksa_aigateway.Server.Repository.{executed}
use pangreksa_aigateway.Server.Configs
use pangreksa_aigateway.Server.Configs.{
  ConfigRow, ConfigPollRequest, handle_admin_config, update, upsert, insert_config,
  compute_config_version, answer_update, get_current, read_config,
}
use pangreksa_aigateway.Server.Configs.Versions
use pangreksa_aigateway.Server.Configs.Versions.{
  IsVersion, IsCurrent, handle_admin_config-IsCurrent,
}
use pangreksa_aigateway.Daemon.Poller
use pangreksa_aigateway.Daemon.Poller.{new_poller, fetch_and_forward, polls}
use pangreksa_aigateway.Daemon.Poller.Adoption.{served, Adopts, poll-Adopts}
use pangreksa_aigateway.Tests.Instances.{plain}

-- A digest of 64 characters.
abbrev repeated : ℕ → Text
repeated zero = []
repeated (suc n) = b'0' ∷ repeated n

abbrev proxy : Text → ProxyConfig
proxy base_url = record {
  provider = codes "openai";
  port = pos 8080;
  base_url = base_url;
  api_key_enc = [];
}

abbrev proxying : Text → GatewayConfig
proxying base_url = record {
  version = repeated 64;
  gateway_id = codes "g1";
  proxies = proxy base_url ∷ [];
  registry = record { prompts = []; skills = []; mcps = [] };
  policies = record { guardrails = []; budget_rules = []; rate_rules = [] };
}

-- The encoder serves the gateway g1 with the proxy of OpenAI alone. A document is the URL of the
-- proxy.
abbrev encode_proxies : List ProxyConfig → Result Text
encode_proxies [] = err (codes "no proxy")
encode_proxies (p ∷ []) =
    if text_eq p.provider (codes "openai") && text_eq p.api_key_enc [] && eqb_ℤ p.port (pos 8080)
    then ok p.base_url
    else err (codes "another proxy")
encode_proxies (p ∷ q ∷ ps) = err (codes "too many proxies")

abbrev is_bare : GatewayConfig → Bool
is_bare cfg =
    text_eq cfg.gateway_id (codes "g1")
    && length cfg.registry.prompts == 0
    && length cfg.registry.skills == 0
    && length cfg.registry.mcps == 0
    && length cfg.policies.guardrails == 0
    && length cfg.policies.budget_rules == 0
    && length cfg.policies.rate_rules == 0

abbrev encode_config : GatewayConfig → Result Text
encode_config cfg = if is_bare cfg then encode_proxies cfg.proxies else err (codes "not bare")

empty_of_length : {A : Type 0} (xs : List A) → length xs == 0 ≡ true → xs ≡ []
empty_of_length [] h = refl
empty_of_length (x ∷ xs) h = absurd (ground arith)

default_port : (port : ℤ) → eqb_ℤ port (pos 8080) ≡ true → port ≡ pos 8080
default_port (pos n) h = ground arith
default_port (negsuc n) h = absurd (ground arith)

encoded_proxies : (ps : List ProxyConfig) (b : Text) → encode_proxies ps ≡ ok b → ps ≡ proxy b ∷ []
encoded_proxies [] b h = cc
encoded_proxies (p ∷ q ∷ ps) b h = cc
encoded_proxies (p ∷ []) b h =
    let provider = text_eq_sound p.provider (codes "openai") (ground arith) in
    let key = text_eq_sound p.api_key_enc [] (ground arith) in
    let port = default_port p.port (ground arith) in
    let url : p.base_url ≡ b = ground arith in
    λ i. record { provider = provider i; port = port i; base_url = url i; api_key_enc = key i } ∷ []

encode_config-ok :
    (cfg : GatewayConfig) (b : Text)
    → encode_config cfg ≡ ok b
    → (is_bare cfg ≡ true) × (encode_proxies cfg.proxies ≡ ok b)
encode_config-ok cfg b h = elim (Bool-cases (is_bare cfg)) [
  | inl e ↦ (e, rw e at h)
  | inr e ↦ absurd (cc (rw e at h))
]

encode_config-proxying :
    (cfg : GatewayConfig) (b : Text)
    → cfg.version ≡ repeated 64
    → encode_config cfg ≡ ok b
    → proxying b ≡ cfg
encode_config-proxying cfg b version h =
    let (bare, single) = encode_config-ok cfg b h in
    let id = text_eq_sound cfg.gateway_id (codes "g1") (ground arith) in
    let proxies = encoded_proxies cfg.proxies b single in
    let prompts = empty_of_length cfg.registry.prompts (ground arith) in
    let skills = empty_of_length cfg.registry.skills (ground arith) in
    let mcps = empty_of_length cfg.registry.mcps (ground arith) in
    let guardrails = empty_of_length cfg.policies.guardrails (ground arith) in
    let budget_rules = empty_of_length cfg.policies.budget_rules (ground arith) in
    let rate_rules = empty_of_length cfg.policies.rate_rules (ground arith) in
    let same : cfg ≡ proxying b = λ i. record {
      version = version i;
      gateway_id = id i;
      proxies = proxies i;
      registry = record { prompts = prompts i; skills = skills i; mcps = mcps i };
      policies = record {
        guardrails = guardrails i;
        budget_rules = budget_rules i;
        rate_rules = rate_rules i;
      };
    } in
    sym same

abbrev pub codec : Configs.Codec
codec = record {
  marshal = encode_config;
  unmarshal = λ t. ok (proxying t);
  decode = λ t. ok (proxying t);
  jsonb = λ t. t;
  digest = λ t. repeated 64;
  encode = λ cfg. [];
  encode_error = λ t. t;
  encode_stored = λ t. t;
  marshal_poll = λ req. ok req.current_version;
  decode_poll = λ t. ok (record { gateway_id = codes "g1"; current_version = t });
}

codec_laws : Versions.Laws codec
codec_laws = record {
  length-digest = λ b. refl;
  stored = λ cfg b h e. ap ok (encode_config-proxying cfg b h.1 e);
  sent = λ t cfg e h. (proxying [], refl, sym h.1);
  polled = λ req h. (
    req.current_version,
    record { gateway_id = codes "g1"; current_version = req.current_version },
    refl,
    refl,
    refl,
  );
}

abbrev new_config : Request
new_config = record { authorization = codes "Bearer admin"; body = some (codes "https://api") }

abbrev no_rows : List ConfigRow
no_rows = []

handle_admin_config-IsCurrent_example :
    (cfg : GatewayConfig) × (v : Text) × (check_bearer new_config (codes "admin") ≡ true)
    × (decode_json codec.decode new_config ≡ ok cfg)
    × (compute_config_version codec (record cfg { version = [] }) ≡ ok v)
    × ((handle_admin_config codec (codes "admin") executed new_config no_rows).0.body
        ≡ codec.encode_stored v)
    × IsCurrent codec v (handle_admin_config codec (codes "admin") executed new_config no_rows).1
    × (get_current codec none
          (handle_admin_config codec (codes "admin") executed new_config no_rows).1
        ≡ found (record cfg { version = v }))
unfolding handle_admin_config check_bearer has_prefix behind text_eq decode_json update upsert
    compute_config_version insert_config answer_update
handle_admin_config-IsCurrent_example =
    handle_admin_config-IsCurrent codec codec_laws (codes "admin") executed new_config no_rows refl

abbrev rows : List ConfigRow
rows = record { version = repeated 64; config = codes "https://api" } ∷ []

rows-IsCurrent : IsCurrent codec (repeated 64) rows
unfolding get_current read_config
rows-IsCurrent = record {
  config = proxying (codes "https://api");
  text = codes "https://api";
  reads = refl;
  newest = refl;
  version = refl;
  hashed = ([], refl);
}

abbrev started : Poller.State
started = record {
  poller = new_poller (codes "http://server") (codes "g1") (codes "key") 30;
  forwarded = [];
}

poll-Adopts_example :
    Adopts plain codec
      (repeated 64)
      started
      (fetch_and_forward plain codec (served plain codec started.poller.api_key rows) started)
    × (polls plain codec
          (served plain codec started.poller.api_key rows
            ∷ served plain codec started.poller.api_key rows
            ∷ [])
          started
        ≡ fetch_and_forward plain codec (served plain codec started.poller.api_key rows) started)
unfolding new_poller
poll-Adopts_example =
    poll-Adopts plain codec codec_laws rows (repeated 64) rows-IsCurrent started (inl refl)
