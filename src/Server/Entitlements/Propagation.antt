-- ===== src/Server/Entitlements/Propagation.antt =====
-- service.go with resolver.go and sub.go of the daemon: an update reaches the daemon. The body of an
-- answer to POST /entitlement is taken to decode to the entitlement that was encoded.
use pangreksa_aigateway.Prelude.{
  ℕ, ◌≡◌, refl, ap, ◌∙◌, List, [], ◌∷◌, ◌++◌, true, none, some, ok, err, map_err,
}
use pangreksa_aigateway.Prelude.Texts.{Text, codes}
use pangreksa_aigateway.Model.Format.{Format}
use pangreksa_aigateway.Model.Entitlement.{UserEntitlement}
use pangreksa_aigateway.Cache.Local.{LocalCache}
use pangreksa_aigateway.Cache.Redis.{EntitlementStore}
use pangreksa_aigateway.Cache.Invalidation.{Invalidation, run}
use pangreksa_aigateway.Entitlement.{
  HttpReply, responded, Surroundings, read_reply, fetch_from_server, resolve,
}
use pangreksa_aigateway.Entitlement.Tiers.{evict-resolve}
use pangreksa_aigateway.Server.Http.{Lookup, found, not_found, broken}
use pangreksa_aigateway.Server.Repository.{Exec, executed}
use pangreksa_aigateway.Server.Auth.Sessions.{User}
use pangreksa_aigateway.Server.Entitlements
use pangreksa_aigateway.Server.Entitlements.{invalidate_user, publish_update, updated, update}
use pangreksa_aigateway.Server.Entitlements.Rows.{EntitlementRow, Columns, update_row}

-- The messages as the daemon's subscriber hears them, where its deletes reach Redis.
abbrev pub heard : List Text → List Invalidation
heard [] = []
heard (user_id ∷ ids) = record { user_id = user_id; fault = none; arrived = true } ∷ heard ids

module _ {F : Type 0} where
  -- What the resolver sees of the answer of `handleEntitlement`.
  abbrev pub reply_of : Lookup (UserEntitlement F) → HttpReply F
  reply_of (found ent) = responded 200 (ok ent)
  reply_of (not_found e) = responded 404 (err e)
  reply_of (broken e) = responded 500 (err e)

module _ {V F : Type 0} (columns : Columns V F) where
  -- The surroundings with the server on these tables.
  abbrev pub answering : Surroundings F → ℕ → List User → List (EntitlementRow F) → Surroundings F
  answering io now users rows = record io {
    server = λ user_id org_id.
        reply_of (Entitlements.resolve columns none none now user_id org_id users rows);
  }

  updated-published :
      (user_id : Text) (channel : List Text) (r : Lookup (Unit {0}) × List (EntitlementRow F))
      → (updated columns (some executed) user_id channel r).0 ≡ found tt
      → (updated columns (some executed) user_id channel r).2 ≡ channel ++ user_id ∷ []
  unfolding publish_update invalidate_user
  updated-published user_id channel (found _, rows) h = refl
  updated-published user_id channel (not_found e, rows) h = cc
  updated-published user_id channel (broken e, rows) h = cc

  -- If an update of a user's entitlement succeeds and its publication does, the channel has one more
  -- message, the user's. A daemon that has handled this message, with its deletes reaching Redis,
  -- resolves the user, named by the same text, to what the server resolves from the updated table,
  -- whatever the daemon's caches held and whatever happens to its other calls of Redis.
  pub update_reaches_daemon :
      (fmt : Format) (tiers : EntitlementStore F) (x : Exec) (now later : ℕ) (user_id org_id : Text)
      (changes : List (Text × V)) (io : Surroundings F) (users : List User)
      (rows : List (EntitlementRow F)) (channel : List Text) (c : LocalCache F) (s : tiers.Store)
      (ent : UserEntitlement F)
      → (update columns x now (some executed) user_id changes rows channel).0 ≡ found tt
      → Entitlements.resolve columns none none later user_id org_id users
          (update columns x now (some executed) user_id changes rows channel).1
        ≡ found ent
      → ((update columns x now (some executed) user_id changes rows channel).2
          ≡ channel ++ user_id ∷ [])
        × ((resolve fmt tiers later
              (answering io later users
                (update columns x now (some executed) user_id changes rows channel).1)
              user_id
              org_id
              (run tiers (heard (user_id ∷ [])) c s).0
              (run tiers (heard (user_id ∷ [])) c s).1).0
            ≡ ok ent)
  unfolding update run fetch_from_server read_reply
  update_reaches_daemon fmt tiers x now later user_id org_id changes io users rows channel c s ent
        done resolved =
      let rows' = (update columns x now (some executed) user_id changes rows channel).1 in
      (
        updated-published user_id channel (update_row columns x now user_id changes rows) done,
        evict-resolve fmt tiers later (answering io later users rows')
              (record { user_id = user_id; fault = none; arrived = true }) org_id c s refl
            ∙ ap
                (λ (l : Lookup (UserEntitlement F)).
                  map_err (λ e. codes "entitlement.Resolve: L3 fetch: " ++ e)
                    (read_reply fmt (reply_of l)))
                resolved,
      )
