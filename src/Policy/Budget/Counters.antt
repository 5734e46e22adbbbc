-- ===== src/Policy/Budget/Counters.antt =====
-- What `Cache.IncrByFloat` (internal/cache/redis/redis.go) asks of Redis, and the method.
use pangreksa_aigateway.Prelude.{ℕ, ◌<◌, ◌≡◌, ◌≢◌, Bool, Option, none, some, if◌then◌else◌}
use pangreksa_aigateway.Prelude.Texts.{Text}
use pangreksa_aigateway.Model.Float.{Float64}

-- INCRBYFLOAT and EXPIRE at a time in nanoseconds; `read` is a counter's value, 0 if there is none.
pub record FloatCounters (fl : Float64) : Type 1 where
  pub Store : Type 0
  pub read : ℕ → Text → Store → fl.F
  pub incr_by : ℕ → Text → fl.F → Store → Store
  pub expire : ℕ → Text → ℕ → Store → Store
  pub read-incr_by_self :
      (now : ℕ) (k : Text) (a : fl.F) (s : Store)
      → read now k (incr_by now k a s) ≡ fl.add (read now k s) a
  pub read-incr_by_ne :
      (now : ℕ) (k j : Text) (a : fl.F) (s : Store)
      → k ≢ j
      → read now j (incr_by now k a s) ≡ read now j s
  pub read-expire :
      (now : ℕ) (k j : Text) (ttl : ℕ) (s : Store)
      → 0 < ttl
      → read now j (expire now k ttl s) ≡ read now j s

-- What becomes of the two commands of one call: INCRBYFLOAT is answered, and EXPIRE succeeds or
-- not; INCRBYFLOAT does not run; or it runs and its reply is lost.
pub data Delivery : Type 0 where
  replied : Bool → Delivery
  never_ran reply_lost : Delivery

module _ {fl : Float64} (c : FloatCounters fl) where
  open c use {Store, read, incr_by, expire}

  -- `none` is the error.
  unfoldable pub incr_by_float : ℕ → Delivery → Text → fl.F → ℕ → Store → Option fl.F × Store
  incr_by_float now (replied expires) key amount ttl s =
      let s' = incr_by now key amount s in
      (some (read now key s'), if expires then expire now key ttl s' else s')
  incr_by_float now never_ran key amount ttl s = (none, s)
  incr_by_float now reply_lost key amount ttl s = (none, incr_by now key amount s)
