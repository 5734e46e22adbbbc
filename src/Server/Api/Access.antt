-- ===== src/Server/Api/Access.antt =====
-- handler.go: which keys open which endpoints.
use pangreksa_aigateway.Prelude.{
  ◌≡◌, refl, ap, ◌⊎◌, Bool, true, false, Option, none, some, arith, inl, inr, Bool-cases,
}
use pangreksa_aigateway.Prelude.Texts.{Text}
use pangreksa_aigateway.Server.Http.{Request, Response, check_bearer}
use pangreksa_aigateway.Server.Configs.{handle_config, handle_admin_config}
use pangreksa_aigateway.Server.Api.{
  Codecs, Handler, Server, Moment, Endpoint, unauthorized, handle_entitlement,
  handle_admin_entitlement, handle_admin_invalidate, handle, route_key, with_auth, serve,
}
use pangreksa_aigateway.Server.Api

module _ {V F : Type 0} (codecs : Codecs V F) (h : Handler) where
  handle-unauthorized :
      (e : Endpoint) (io : Moment) (r : Request) (st : Server F) (key : Text)
      → route_key codecs h e ≡ some key
      → check_bearer r key ≡ false
      → handle codecs h e io r st ≡ (unauthorized codecs h, st)
  unfolding handle route_key handle_config handle_admin_config handle_entitlement
      handle_admin_entitlement handle_admin_invalidate
  handle-unauthorized Api.health io r st key k bad = cc
  handle-unauthorized Api.metrics io r st key k bad = cc
  handle-unauthorized Api.config io r st key k bad = ground (arith)
  handle-unauthorized Api.entitlement io r st key k bad = ground (arith)
  handle-unauthorized Api.admin_config io r st key k bad = ground (arith)
  handle-unauthorized Api.admin_entitlement io r st key k bad = ground (arith)
  handle-unauthorized Api.admin_invalidate io r st key k bad = ground (arith)

  -- What a request has done to the state: nothing, or it had the administrator's key.
  abbrev IsGuarded : Endpoint → Request → Server F → Server F → Type 0
  IsGuarded e r st st' =
      (st' ≡ st)
      ⊎ (route_key codecs h e ≡ some h.admin_api_key) × (check_bearer r h.admin_api_key ≡ true)

  by_key :
      (e : Endpoint) (io : Moment) (r : Request) (st : Server F)
      → route_key codecs h e ≡ some h.admin_api_key
      → IsGuarded e r st (handle codecs h e io r st).1
  by_key e io r st k = elim (Bool-cases (check_bearer r h.admin_api_key)) [
    | inl good ↦ inr (k, good)
    | inr bad ↦ inl (
        ap (λ (x : Response × Server F). x.1) (handle-unauthorized e io r st h.admin_api_key k bad))
  ]

  handle-IsGuarded :
      (e : Endpoint) (io : Moment) (r : Request) (st : Server F)
      → IsGuarded e r st (handle codecs h e io r st).1
  unfolding handle route_key
  handle-IsGuarded Api.health io r st = inl refl
  handle-IsGuarded Api.metrics io r st = inl refl
  handle-IsGuarded Api.config io r st = inl refl
  handle-IsGuarded Api.entitlement io r st = inl refl
  handle-IsGuarded Api.admin_config io r st = by_key Api.admin_config io r st refl
  handle-IsGuarded Api.admin_entitlement io r st = by_key Api.admin_entitlement io r st refl
  handle-IsGuarded Api.admin_invalidate io r st = by_key Api.admin_invalidate io r st refl

  with_auth-either :
      (P : Server F → Type 0) (key : Option Text) (r : Request) (st : Server F)
      (next : Response × Server F)
      → P st
      → P next.1
      → P (with_auth codecs h key r st next).1
  with_auth-either P none r st next a b = b
  with_auth-either P (some key) r st next a b = elim (Bool-cases (check_bearer r key)) [
    | inl good ↦ rw good b
    | inr bad ↦ rw bad a
  ]

  -- Whatever the method of a request: without the key of a guarded endpoint it is answered with 401
  -- and changes nothing; and it changes the tables or publishes on the channel only at an endpoint of
  -- the administration, with the administrator's key.
  pub serve-Guarded :
      (post : Bool) (e : Endpoint) (io : Moment) (r : Request) (st : Server F)
      → ((key : Text)
          → route_key codecs h e ≡ some key
          → check_bearer r key ≡ false
          → serve codecs h post e io r st ≡ (unauthorized codecs h, st))
        × (((serve codecs h post e io r st).1 ≡ st)
            ⊎ (route_key codecs h e ≡ some h.admin_api_key)
              × (check_bearer r h.admin_api_key ≡ true))
  unfolding serve
  serve-Guarded true e io r st = (handle-unauthorized e io r st, handle-IsGuarded e io r st)
  serve-Guarded false e io r st = (
    λ key k bad. rw (k, with_auth, bad),
    with_auth-either (IsGuarded e r st) (route_key codecs h e) r st (handle codecs h e io r st)
        (inl refl) (handle-IsGuarded e io r st),
  )
