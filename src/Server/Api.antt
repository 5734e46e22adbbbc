-- ===== src/Server/Api.antt =====
-- internal/server/api/handler.go: the handlers and their routes. Each handler is registered for POST,
-- and for the other methods behind `withAuth`.
pub mod Access
use pangreksa_aigateway.Prelude.{
  ℕ, Bool, true, false, List, [], ◌∷◌, ◌++◌, if◌then◌else◌, Option, none, some, Result, ok, err,
}
use pangreksa_aigateway.Prelude.Texts.{Text, codes}
use pangreksa_aigateway.Model.Entitlement.{UserEntitlement}
use pangreksa_aigateway.Server.Http.{
  Request, Response, check_bearer, decode_json, write_json, write_error, Lookup, found, not_found,
  broken, answer_lookup,
}
use pangreksa_aigateway.Server.Repository.{Exec}
use pangreksa_aigateway.Server.Auth.Sessions.{User}
use pangreksa_aigateway.Server.Configs.{Codec, ConfigRow, handle_config, handle_admin_config}
use pangreksa_aigateway.Server.Entitlements
use pangreksa_aigateway.Server.Entitlements.{invalidate_user}
use pangreksa_aigateway.Server.Entitlements.Rows.{EntitlementRow, Columns}

pub record EntitlementRequest : Type 0 where
  pub user_id : Text
  pub org_id : Text

pub record AdminEntitlementRequest (V : Type 0) : Type 0 where
  pub user_id : Text
  pub changes : List (Text × V)

-- The other codecs of the handlers. An answer of the administration is encoded from its one truth
-- value that varies.
pub record Codecs (V F : Type 0) : Type 0 where
  pub configs : Codec
  pub columns : Columns V F
  pub decode_entitlement : Text → Result EntitlementRequest
  pub decode_admin : Text → Result (AdminEntitlementRequest V)
  pub decode_invalidate : Text → Result Text
  pub encode_entitlement : UserEntitlement F → Text
  pub encode_updated : Text
  pub encode_published : Bool → Text
  pub encode_health : Text → ℕ → Text

pub record Handler : Type 0 where
  pub server_id : Text
  pub admin_api_key : Text
  pub daemon_api_key : Text
  pub has_publisher : Bool

-- The tables, and the channel of Redis.
pub record Server (F : Type 0) : Type 0 where
  pub configs : List ConfigRow
  pub users : List User
  pub entitlements : List (EntitlementRow F)
  pub channel : List Text

-- What happens at the database, Redis and the clock during one request.
pub record Moment : Type 0 where
  pub query_fault : Option Text
  pub user_fault : Option Text
  pub exec : Exec
  pub publication : Exec
  pub now : ℕ

pub data Endpoint : Type 0 where
  health config entitlement admin_config admin_entitlement admin_invalidate metrics : Endpoint

module _ {V F : Type 0} (codecs : Codecs V F) (h : Handler) where
  abbrev errors : Text → Text
  errors = codecs.configs.encode_error

  abbrev pub unauthorized : Response
  unauthorized = write_error codecs.configs.encode_error 401 (codes "unauthorized")

  unfoldable pub handle_health : Moment → Response
  handle_health io = write_json 200 (codecs.encode_health h.server_id io.now)

  abbrev pub metrics_response : Response
  metrics_response = record { status = 200; body = [] }

  unfoldable pub handle_entitlement : Moment → Request → Server F → Response
  handle_entitlement io r st =
      if check_bearer r h.daemon_api_key
      then elim (decode_json codecs.decode_entitlement r) [
        | err e ↦ write_error errors 400 (codes "invalid request body")
        | ok req ↦
            answer_lookup errors (codes "user_not_found")
              (λ ent. write_json 200 (codecs.encode_entitlement ent))
              (Entitlements.resolve codecs.columns io.user_fault io.query_fault io.now req.user_id
                req.org_id st.users st.entitlements)
      ]
      else unauthorized

  abbrev publisher : Moment → Option Exec
  publisher io = if h.has_publisher then some io.publication else none

  unfoldable pub store_update :
      Server F → Lookup (Unit {0}) × List (EntitlementRow F) × List Text → Response × Server F
  store_update st (result, rows, channel) = (
    answer_lookup errors (codes "user_not_found") (λ _. write_json 200 codecs.encode_updated)
        result,
    record st { entitlements = rows; channel = channel },
  )

  unfoldable pub handle_admin_entitlement : Moment → Request → Server F → Response × Server F
  handle_admin_entitlement io r st =
      if check_bearer r h.admin_api_key
      then elim (decode_json codecs.decode_admin r) [
        | err e ↦ (write_error errors 400 (codes "invalid request body"), st)
        | ok req ↦ store_update st (
            Entitlements.update codecs.columns io.exec io.now (publisher io) req.user_id req.changes
              st.entitlements st.channel)
      ]
      else (unauthorized, st)

  unfoldable pub answer_invalidation :
      Server F → Result (Unit {0}) × List Text → Response × Server F
  answer_invalidation st (ok _, channel) =
      (write_json 200 (codecs.encode_published true), record st { channel = channel })
  answer_invalidation st (err e, channel) =
      (write_error errors 500 (codes "internal error"), record st { channel = channel })

  unfoldable pub handle_admin_invalidate : Moment → Request → Server F → Response × Server F
  handle_admin_invalidate io r st =
      if check_bearer r h.admin_api_key
      then elim (decode_json codecs.decode_invalidate r) [
        | err e ↦ (write_error errors 400 (codes "invalid request body"), st)
        | ok user_id ↦
            if h.has_publisher
            then answer_invalidation st (invalidate_user io.publication user_id st.channel)
            else (write_json 200 (codecs.encode_published false), st)
      ]
      else (unauthorized, st)

  abbrev stored_configs : Server F → Response × List ConfigRow → Response × Server F
  stored_configs st (response, rows) = (response, record st { configs = rows })

  -- The handler of an endpoint.
  unfoldable pub handle : Endpoint → Moment → Request → Server F → Response × Server F
  handle health io r st = (handle_health io, st)
  handle config io r st =
      (handle_config codecs.configs h.daemon_api_key io.query_fault st.configs r, st)
  handle entitlement io r st = (handle_entitlement io r st, st)
  handle admin_config io r st =
      stored_configs st (handle_admin_config codecs.configs h.admin_api_key io.exec r st.configs)
  handle admin_entitlement io r st = handle_admin_entitlement io r st
  handle admin_invalidate io r st = handle_admin_invalidate io r st
  handle metrics io r st = (metrics_response, st)

  -- The key with which `Register` guards the second route of an endpoint.
  unfoldable pub route_key : Endpoint → Option Text
  route_key health = none
  route_key config = some h.daemon_api_key
  route_key entitlement = some h.daemon_api_key
  route_key admin_config = some h.admin_api_key
  route_key admin_entitlement = some h.admin_api_key
  route_key admin_invalidate = some h.admin_api_key
  route_key metrics = none

  -- `withAuth`
  abbrev pub with_auth :
      Option Text → Request → Server F → Response × Server F → Response × Server F
  with_auth none r st next = next
  with_auth (some key) r st next = if check_bearer r key then next else (unauthorized, st)

  -- The two routes of `Register`: a POST goes to the handler, another method through `withAuth`.
  unfoldable pub serve : Bool → Endpoint → Moment → Request → Server F → Response × Server F
  serve true e io r st = handle e io r st
  serve false e io r st = with_auth (route_key e) r st (handle e io r st)
