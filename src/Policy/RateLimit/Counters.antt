-- ===== src/Policy/RateLimit/Counters.antt =====
-- What the sliding-window script asks of Redis: INCR, EXPIRE and GET on counters, on a clock in
-- seconds, and Lua's text of a number. The laws are the documented behaviour of the commands.
use pangreksa_aigateway.Prelude.{
  ℕ, suc, ◌+◌, ◌^◌, ◌≤◌, ◌<◌, ◌≡◌, ◌≢◌, Option, none, some, ltb, if◌then◌else◌, All,
}
use pangreksa_aigateway.Prelude.Texts.{Text}

-- A missing counter counts as 0.
abbrev pub value : Option ℕ → ℕ
value none = 0
value (some n) = n

pub record Counters : Type 1 where
  pub Store : Type 0
  pub get : ℕ → Text → Store → Option ℕ
  pub incr : ℕ → Text → Store → Store
  pub expire : ℕ → Text → ℕ → Store → Store
  pub number_text : ℕ → Text
  pub get-incr_self :
      (now : ℕ) (k : Text) (s : Store) → get now k (incr now k s) ≡ some (suc (value (get now k s)))
  pub get-incr_ne :
      (now t : ℕ) (k j : Text) (s : Store) → k ≢ j → get t j (incr now k s) ≡ get t j s
  pub get-expire_self :
      (now t ttl : ℕ) (k : Text) (s : Store)
      → now ≤ t
      → get t k (expire now k ttl s) ≡ (if ltb t (now + ttl) then get now k s else none)
  pub get-expire_ne :
      (now t ttl : ℕ) (k j : Text) (s : Store) → k ≢ j → get t j (expire now k ttl s) ≡ get t j s
  -- "%.14g" prints a whole number below 10^14 in full.
  pub number_text_injective :
      (m n : ℕ) → m < 10 ^ 14 → n < 10 ^ 14 → number_text m ≡ number_text n → m ≡ n
  pub number_text_digits : (n : ℕ) → All (λ c. c ≢ b':') (number_text n)
