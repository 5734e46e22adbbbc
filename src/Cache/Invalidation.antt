-- ===== src/Cache/Invalidation.antt =====
-- internal/cache/invalidation/sub.go: `evict` and the loop of `Run` over the messages that come.
use pangreksa_aigateway.Prelude.{Bool, List, [], ◌∷◌, Option}
use pangreksa_aigateway.Prelude.Texts.{Text}
use pangreksa_aigateway.Cache.Local.{LocalCache, delete_user}
use pangreksa_aigateway.Cache.Redis.{EntitlementStore, delete}

-- A message, and what becomes of the delete that it causes in Redis.
pub record Invalidation : Type 0 where
  pub user_id : Text
  pub fault : Option Text
  pub arrived : Bool

module _ {F : Type 0} (r : EntitlementStore F) where
  open r use {Store}

  unfoldable pub evict : Invalidation → LocalCache F → Store → LocalCache F × Store
  evict msg c s = (delete_user c msg.user_id, (delete r msg.fault msg.arrived msg.user_id s).1)

  -- The loop of `Run`, over the messages received before the context ends.
  unfoldable pub run : List Invalidation → LocalCache F → Store → LocalCache F × Store
  run [] c s = (c, s)
  run (msg ∷ msgs) c s = let (c', s') = evict msg c s in run msgs c' s'
