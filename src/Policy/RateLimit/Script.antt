-- ===== src/Policy/RateLimit/Script.antt =====
-- `slidingWindowLua` (ratelimit.go), line by line. `now` is Unix time in seconds, so that the
-- subtraction in `bucket` is exact from 1970-01-01 00:01 on.
mod Keys
pub mod Refines
pub mod Bound
use pangreksa_aigateway.Prelude.{
  ℕ, zero, suc, ◌+◌, ◌-◌, ◌*◌, ◌/◌, Bool, List, [], ◌∷◌, ◌++◌, if◌then◌else◌,
}
use pangreksa_aigateway.Prelude.Texts.{Text, codes}
use pangreksa_aigateway.Prelude.Int.{ℤ, pos, ltb_ℤ}
use pangreksa_aigateway.Policy.RateLimit.Counters.{Counters, value}

abbrev pub bucket_size : ℕ
bucket_size = 5

abbrev pub window : ℕ
window = 60

abbrev pub bucket_ttl : ℕ
bucket_ttl = 65

-- `math.floor(now / bucket_size) * bucket_size`
abbrev pub bucket : ℕ → ℕ
bucket now = now / bucket_size * bucket_size

module _ (r : Counters) where
  open r use {Store, get, incr, expire, number_text}

  -- `key_prefix .. ':' .. b`
  unfoldable pub bucket_key : Text → ℕ → Text
  bucket_key key_prefix b = key_prefix ++ (codes ":" ++ number_text b)

  -- The `for` loop, for the `n` buckets from the current one backwards.
  unfoldable pub total_of : ℕ → Text → ℕ → Store → ℕ → ℕ
  total_of now key_prefix current_bucket s zero = 0
  total_of now key_prefix current_bucket s (suc i) =
      total_of now key_prefix current_bucket s i
      + value (get now (bucket_key key_prefix (current_bucket - i * bucket_size)) s)

  -- The writes of the script: INCR, then EXPIRE, on the current bucket.
  unfoldable pub count_call : ℕ → Text → Store → Store
  count_call now key_prefix s =
      let key = bucket_key key_prefix (bucket now) in expire now key bucket_ttl (incr now key s)

  -- The script's reply, 0 or 1, and the store that it leaves.
  unfoldable pub sliding_window : ℕ → Text → ℤ → Store → ℕ × Store
  sliding_window now key_prefix limit s =
      let s' = count_call now key_prefix s in
      let total = total_of now key_prefix (bucket now) s' (window / bucket_size) in
      (if ltb_ℤ limit (pos total) then 0 else 1, s')

-- One call of the script, by any daemon that shares the store.
pub record ScriptCall : Type 0 where
  pub now : ℕ
  pub key_prefix : Text
  pub limit : ℤ

-- The replies to a sequence of calls.
unfoldable pub replies : (r : Counters) → r.Store → List ScriptCall → List ℕ
replies r s [] = []
replies r s (c ∷ cs) =
    let (reply, s') = sliding_window r c.now c.key_prefix c.limit s in reply ∷ replies r s' cs
