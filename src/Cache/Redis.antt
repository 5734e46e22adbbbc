-- ===== src/Cache/Redis.antt =====
-- internal/cache/redis/redis.go: the entitlement methods. Redis's GET, SET and DEL, with
-- encoding/json around the values, come as a value of `EntitlementStore`.
use pangreksa_aigateway.Prelude.{
  ℕ, ◌+◌, ◌≡◌, Bool, ◌++◌, if◌then◌else◌, Option, none, some, ltb, Result, ok, err, ◌≤◌,
}
use pangreksa_aigateway.Prelude.Texts.{Text, codes}
use pangreksa_aigateway.Model.Entitlement.{UserEntitlement}

abbrev pub entitlement_ttl : ℕ
entitlement_ttl = 60_000_000_000

abbrev pub key_of : Text → Text
key_of user_id = codes "user:entitlement:" ++ user_id

-- A value that was set is read for its time to live, and a deleted key holds none.
pub record EntitlementStore (F : Type 0) : Type 1 where
  pub Store : Type 0
  pub get_key : ℕ → Text → Store → Option (UserEntitlement F)
  pub set_key : ℕ → Text → UserEntitlement F → ℕ → Store → Store
  pub del_key : Text → Store → Store
  pub get-set :
      (now t ttl : ℕ) (k : Text) (ent : UserEntitlement F) (s : Store)
      → now ≤ t
      → get_key t k (set_key now k ent ttl s) ≡ (if ltb t (now + ttl) then some ent else none)
  pub get-del : (t : ℕ) (k : Text) (s : Store) → get_key t k (del_key k s) ≡ none

module _ {F : Type 0} (r : EntitlementStore F) where
  open r use {Store, get_key, set_key, del_key}

  -- `Get`: `reached` is the error of the connection or of decoding, if there is one.
  unfoldable pub get : ℕ → Option Text → Text → Store → Result (Option (UserEntitlement F))
  get now (some e) user_id s = err (codes "redis.Cache.Get: " ++ e)
  get now none user_id s = ok (get_key now (key_of user_id) s)

  -- `Set`: on an error the value may be stored or not.
  unfoldable pub set :
      ℕ → Option Text → Bool → UserEntitlement F → Store → Result (Unit {0}) × Store
  set now none arrived ent s = (ok tt, set_key now (key_of ent.user_id) ent entitlement_ttl s)
  set now (some e) arrived ent s = (
    err (codes "redis.Cache.Set: " ++ e),
    if arrived then set_key now (key_of ent.user_id) ent entitlement_ttl s else s,
  )

  unfoldable pub delete : Option Text → Bool → Text → Store → Result (Unit {0}) × Store
  delete none arrived user_id s = (ok tt, del_key (key_of user_id) s)
  delete (some e) arrived user_id s =
      (err (codes "redis.Cache.Delete: " ++ e), if arrived then del_key (key_of user_id) s else s)
