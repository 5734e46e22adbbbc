-- ===== src/Entitlement/Tiers.antt =====
-- resolver.go: the order of the tiers, write-through and eviction.
use pangreksa_aigateway.Prelude.{
  ℕ, ◌≤◌, ◌≡◌, refl, ap, Option, none, some, ok, map_err, arith, inl, inr, Option-cases,
  Result-cases, ◌++◌,
}
use pangreksa_aigateway.Prelude.Texts.{Text, codes}
use pangreksa_aigateway.Model.Format.{Format}
use pangreksa_aigateway.Model.Entitlement.{UserEntitlement}
use pangreksa_aigateway.Cache.Local.{LocalCache, get-set, get-delete_user, get_again, delete_user}
use pangreksa_aigateway.Cache.Local
use pangreksa_aigateway.Cache.Redis.{EntitlementStore, key_of, entitlement_ttl}
use pangreksa_aigateway.Cache.Redis
use pangreksa_aigateway.Cache.Invalidation.{Invalidation, evict}
use pangreksa_aigateway.Entitlement.{
  Surroundings, fetch_from_server, found, resolve_remote, resolve,
}

module _ {F : Type 0} (fmt : Format) (r : EntitlementStore F) where
  open r use {Store}

  found-evicted :
      (now : ℕ) (fault : Option Text) (user_id : Text) (s : Store)
      → found fmt (Redis.get r now fault user_id (r.del_key (key_of user_id) s)) ≡ none
  unfolding Redis.get
  found-evicted now none user_id s = r.get-del now (key_of user_id) s
  found-evicted now (some e) user_id s = refl

  remote_miss :
      (now : ℕ) (io : Surroundings F) (user_id org_id : Text) (c : LocalCache F) (s : Store)
      → found fmt (Redis.get r now io.get_fault user_id s) ≡ none
      → (resolve_remote fmt r now io user_id org_id c s).0
        ≡ map_err
            (λ e. codes "entitlement.Resolve: L3 fetch: " ++ e)
            (fetch_from_server fmt io user_id org_id)
  unfolding resolve_remote
  remote_miss now io user_id org_id c s miss =
      elim (Result-cases (fetch_from_server fmt io user_id org_id)) [
        | inl (ent, e) ↦ rw (miss, resolve_remote, e)
        | inr (m, e) ↦ rw (miss, resolve_remote, e)
      ]

  evict_reached :
      (msg : Invalidation) (c : LocalCache F) (s : Store)
      → msg.fault ≡ none
      → evict r msg c s ≡ (delete_user c msg.user_id, r.del_key (key_of msg.user_id) s)
  unfolding evict Redis.delete
  evict_reached msg c s reached = rw reached

  resolve-evicted :
      (now : ℕ) (io : Surroundings F) (user_id org_id : Text) (c : LocalCache F) (s : Store)
      → (resolve fmt r now io user_id org_id
          (delete_user c user_id)
          (r.del_key (key_of user_id) s)).0
        ≡ map_err
            (λ e. codes "entitlement.Resolve: L3 fetch: " ++ e)
            (fetch_from_server fmt io user_id org_id)
  unfolding resolve
  resolve-evicted now io user_id org_id c s =
      rw (ap (λ x. x.0) (get-delete_user now c user_id), resolve)
        (remote_miss now io user_id org_id _ _ (found-evicted now io.get_fault user_id s))

  -- After the eviction of a user, when the delete has reached Redis, the next `Resolve` for this
  -- user asks the Central Server, whatever the two caches held and whether or not Redis answers its
  -- lookup: the result is the server's.
  pub evict-resolve :
      (now : ℕ) (io : Surroundings F) (msg : Invalidation) (org_id : Text) (c : LocalCache F)
      (s : Store)
      → msg.fault ≡ none
      → (resolve fmt r now io msg.user_id org_id (evict r msg c s).0 (evict r msg c s).1).0
        ≡ map_err
            (λ e. codes "entitlement.Resolve: L3 fetch: " ++ e)
            (fetch_from_server fmt io msg.user_id org_id)
  unfolding resolve
  evict-resolve now io msg org_id c s reached =
      let first = evict_reached msg c s reached in
      rw (ap (λ x. x.0) first, ap (λ x. x.1) first) (resolve-evicted now io msg.user_id org_id c s)

  -- A successful remote tier leaves its entitlement in L1.
  remote_cached :
      (now : ℕ) (io : Surroundings F) (user_id org_id : Text) (c : LocalCache F) (s : Store)
      (ent : UserEntitlement F)
      → (resolve_remote fmt r now io user_id org_id c s).0 ≡ ok ent
      → (resolve_remote fmt r now io user_id org_id c s).1 ≡ Local.set c ent
  unfolding resolve_remote
  remote_cached now io user_id org_id c s ent h =
      elim (Option-cases (found fmt (Redis.get r now io.get_fault user_id s))) [
        | inr (x, e) ↦ ground (arith, e)
        | inl e ↦ elim (Result-cases (fetch_from_server fmt io user_id org_id)) [
          | inl (y, g) ↦ ground (arith, e, g)
          | inr (m, g) ↦ ground (arith, e, g)
        ]
      ]

  l1_after :
      (now later : ℕ) (io : Surroundings F) (user_id org_id : Text) (c : LocalCache F) (s : Store)
      (ent : UserEntitlement F)
      → (resolve fmt r now io user_id org_id c s).0 ≡ ok ent
      → ent.user_id ≡ user_id
      → later ≤ ent.expires_at
      → Local.get later (resolve fmt r now io user_id org_id c s).1 user_id
        ≡ (some ent, (resolve fmt r now io user_id org_id c s).1)
  unfolding resolve
  l1_after now later io user_id org_id c s ent h own fresh =
      elim (Option-cases (Local.get now c user_id).0) [
        | inr (x, e) ↦
            let same : x ≡ ent = ground (arith, e) in
            rw (e, resolve) (get_again now later c user_id ent (rw e (ap some same)) fresh)
        | inl e ↦
            let cached =
              remote_cached now io user_id org_id (Local.get now c user_id).1 s ent
                (ground (arith, e)) in
            rw (e, resolve, cached, ← own) (get-set later _ ent fresh)
      ]

  resolve_hit :
      (now : ℕ) (io : Surroundings F) (user_id org_id : Text) (c : LocalCache F) (s : Store)
      (ent : UserEntitlement F) (c' : LocalCache F)
      → Local.get now c user_id ≡ (some ent, c')
      → resolve fmt r now io user_id org_id c s ≡ (ok ent, c', s)
  unfolding resolve
  resolve_hit now io user_id org_id c s ent c' h = rw (ap (λ x. x.0) h, resolve, ap (λ x. x.1) h)

  -- What a successful `Resolve` returns for a user, if it is an entitlement of this user, stays the
  -- answer for this user until it expires, whatever the organisation asked for and whatever Redis
  -- and the server would answer; and both caches stay as they were.
  pub resolve_again :
      (now later : ℕ) (io io' : Surroundings F) (user_id org_id other : Text) (c : LocalCache F)
      (s : Store) (ent : UserEntitlement F)
      → (resolve fmt r now io user_id org_id c s).0 ≡ ok ent
      → ent.user_id ≡ user_id
      → later ≤ ent.expires_at
      → resolve fmt r later io' user_id other
          (resolve fmt r now io user_id org_id c s).1
          (resolve fmt r now io user_id org_id c s).2
        ≡ (
          ok ent,
          (resolve fmt r now io user_id org_id c s).1,
          (resolve fmt r now io user_id org_id c s).2,
        )
  resolve_again now later io io' user_id org_id other c s ent h own fresh =
      resolve_hit later io' user_id other _ _ ent _
        (l1_after now later io user_id org_id c s ent h own fresh)
