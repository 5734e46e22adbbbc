-- ===== src/Entitlement.antt =====
-- internal/entitlement/resolver.go.
pub mod Tiers
use pangreksa_aigateway.Prelude.{
  ℕ, Bool, true, false, ◌||◌, ◌++◌, ◌==◌, not, if◌then◌else◌, Option, none, some, Result, ok, err,
  map_err,
}
use pangreksa_aigateway.Prelude.Texts.{Text, codes}
use pangreksa_aigateway.Prelude.Int.{pos}
use pangreksa_aigateway.Model.Format.{Format}
use pangreksa_aigateway.Model.Entitlement.{UserEntitlement}
use pangreksa_aigateway.Cache.Local.{LocalCache}
use pangreksa_aigateway.Cache.Local
use pangreksa_aigateway.Cache.Redis.{EntitlementStore}
use pangreksa_aigateway.Cache.Redis

-- What comes of the POST to the Central Server: an error of the request, or a status and the
-- decoding of the body.
pub data HttpReply (F : Type 0) : Type 0 where
  failed : Text → HttpReply F
  responded : ℕ → Result (UserEntitlement F) → HttpReply F

-- What the outside does during one `Resolve`: faults of the two Redis calls, and the server's
-- reply to a request for a user and an organisation.
pub record Surroundings (F : Type 0) : Type 0 where
  pub get_fault : Option Text
  pub set_fault : Option Text
  pub set_arrived : Bool
  pub server : Text → Text → HttpReply F

module _ {F : Type 0} (fmt : Format) where
  unfoldable pub read_reply : HttpReply F → Result (UserEntitlement F)
  read_reply (failed e) = err (codes "entitlement.fetchFromServer: http: " ++ e)
  read_reply (responded status body) =
      if status == 403 || status == 401
      then err (
          codes "entitlement.fetchFromServer: server denied access (HTTP "
          ++ (fmt.show_int (pos status) ++ codes ")"))
      else if not (status == 200)
      then err
          (codes "entitlement.fetchFromServer: unexpected status " ++ fmt.show_int (pos status))
      else map_err (λ e. codes "entitlement.fetchFromServer: decode: " ++ e) body

  unfoldable pub fetch_from_server : Surroundings F → Text → Text → Result (UserEntitlement F)
  unfolding read_reply
  fetch_from_server io user_id org_id = read_reply (io.server user_id org_id)

  -- A failed lookup in Redis is logged, and counts as a miss.
  abbrev pub found : Result (Option (UserEntitlement F)) → Option (UserEntitlement F)
  found (ok hit) = hit
  found (err e) = none

module _ {F : Type 0} (fmt : Format) (r : EntitlementStore F) where
  open r use {Store}

  -- From the miss in L1 on.
  unfoldable pub resolve_remote :
      ℕ
      → Surroundings F
      → Text
      → Text
      → LocalCache F
      → Store
      → Result (UserEntitlement F) × LocalCache F × Store
  resolve_remote now io user_id org_id c s =
      elim (found fmt (Redis.get r now io.get_fault user_id s)) [
        | some ent ↦ (ok ent, Local.set c ent, s)
        | none ↦ elim (fetch_from_server fmt io user_id org_id) [
          | err e ↦ (err (codes "entitlement.Resolve: L3 fetch: " ++ e), c, s)
          | ok ent ↦
              (ok ent, Local.set c ent, (Redis.set r now io.set_fault io.set_arrived ent s).1)
        ]
      ]

  unfoldable pub resolve :
      ℕ
      → Surroundings F
      → Text
      → Text
      → LocalCache F
      → Store
      → Result (UserEntitlement F) × LocalCache F × Store
  resolve now io user_id org_id c s = elim (Local.get now c user_id).0 [
    | some ent ↦ (ok ent, (Local.get now c user_id).1, s)
    | none ↦ resolve_remote now io user_id org_id (Local.get now c user_id).1 s
  ]
