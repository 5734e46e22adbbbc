-- ===== src/Tests/Instances.antt =====
-- Concrete values of the parameters: the verbs of fmt, float64, and the stores of Redis.
use pangreksa_aigateway.Prelude.{
  ℕ, zero, suc, ◌+◌, ◌*◌, ◌^◌, ◌/◌, ◌<◌, ◌≡◌, ◌≢◌, refl, ap, ◌∙◌, false, [], ◌∷◌, ◌++◌, arith, ltb,
  leb, if◌then◌else◌, Option, none, some, All, inl, inr, Bool-cases,
}
use pangreksa_aigateway.Prelude.Texts.{Text, codes, text_eq, text_eq_refl, text_eq_sound}
use pangreksa_aigateway.Prelude.Int.{ℤ, pos, negsuc, pos_part}
use pangreksa_aigateway.Prelude.Numbers.{atoi}
use pangreksa_aigateway.Model.Format.{Format}
use pangreksa_aigateway.Model.Float.{Float64}
use pangreksa_aigateway.Model.Entitlement.{UserEntitlement}
use pangreksa_aigateway.Model.Inquiry.{InquiryRequest}
use pangreksa_aigateway.Policy.RateLimit.Counters.{Counters, value}
use pangreksa_aigateway.Policy.Budget.Counters.{FloatCounters}
use pangreksa_aigateway.Cache.Redis.{EntitlementStore}

-- A number as so many strokes.
pub strokes : ℕ → Text
strokes zero = []
strokes (suc n) = b'1' ∷ strokes n

abbrev pub show_int : ℤ → Text
show_int (pos n) = strokes n
show_int (negsuc n) = b'-' ∷ strokes (suc n)

abbrev pub plain : Format
plain = record { quote = λ t. codes "\"" ++ (t ++ codes "\""); show_int = show_int }

abbrev pub whole : Option ℤ → Option ℕ
whole none = none
whole (some n) = some (pos_part n)

-- Amounts of money in whole units.
abbrev pub units : Float64
units = record {
  F = ℕ;
  zero_f = 0;
  add = λ a b. a + b;
  mul = λ a b. a * b;
  div = λ a b. a / b;
  gt = λ a b. ltb b a;
  le = leb;
  of_int = pos_part;
  decimal = λ n k. n / 10 ^ k;
  parse_float = λ t. whole (atoi t);
  show = strokes;
}

-- A key of Redis that holds a number, with the time until which it lives.
pub data Slot : Type 0 where
  absent : Slot
  forever : ℕ → Slot
  until : ℕ → ℕ → Slot

abbrev live : ℕ → Slot → Option ℕ
live now absent = none
live now (forever n) = some n
live now (until t n) = if ltb now t then some n else none

abbrev add_to : ℕ → ℕ → Slot → Slot
add_to now a absent = forever a
add_to now a (forever n) = forever (n + a)
add_to now a (until t n) = if ltb now t then until t (n + a) else forever a

abbrev live_until : ℕ → ℕ → Slot → Slot
live_until now t absent = absent
live_until now t (forever n) = until t n
live_until now t (until u n) = if ltb now u then until t n else absent

-- The store with one key changed.
abbrev change : {A : Type 0} → Text → (A → A) → (Text → A) → Text → A
change k f s j = if text_eq k j then f (s j) else s j

pub change_self : {A : Type 0} (k : Text) (f : A → A) (s : Text → A) → change k f s k ≡ f (s k)
change_self k f s = rw (text_eq_refl k)

pub change_ne : {A : Type 0} (k j : Text) (f : A → A) (s : Text → A) → k ≢ j → change k f s j ≡ s j
change_ne k j f s h = elim (Bool-cases (text_eq k j)) [
  | inl e ↦ absurd (h (text_eq_sound k j e))
  | inr e ↦ rw e
]

pub live-add_to : (now a : ℕ) (x : Slot) → live now (add_to now a x) ≡ some (value (live now x) + a)
live-add_to now a absent = ground arith
live-add_to now a (forever n) = refl
live-add_to now a (until t n) = ground arith

pub live-incr : (now : ℕ) (x : Slot) → live now (add_to now 1 x) ≡ some (suc (value (live now x)))
live-incr now absent = refl
live-incr now (forever n) = ground arith
live-incr now (until t n) = ground arith

pub live-live_until :
    (now t u : ℕ) (x : Slot) → live u (live_until now t x) ≡ (if ltb u t then live now x else none)
live-live_until now t u absent = ground arith
live-live_until now t u (forever n) = refl
live-live_until now t u (until v n) = ground arith

pub strokes_injective : (m n : ℕ) → strokes m ≡ strokes n → m ≡ n
unfolding strokes
strokes_injective zero zero h = refl
strokes_injective zero (suc n) h = cc
strokes_injective (suc m) zero h = cc
strokes_injective (suc m) (suc n) h = ap suc (strokes_injective m n (cc h))

pub strokes_digits : (n : ℕ) → All (λ c. c ≢ b':') (strokes n)
unfolding strokes
strokes_digits zero = tt
strokes_digits (suc n) = (λ e. omega arith, strokes_digits n)

abbrev pub counters : Counters
counters = record {
  Store = Text → Slot;
  get = λ now k s. live now (s k);
  incr = λ now k s. change k (add_to now 1) s;
  expire = λ now k ttl s. change k (live_until now (now + ttl)) s;
  number_text = strokes;
  get-incr_self = λ now k s. ap (live now) (change_self k (add_to now 1) s) ∙ live-incr now (s k);
  get-incr_ne = λ now t k j s h. ap (live t) (change_ne k j (add_to now 1) s h);
  get-expire_self = λ now t ttl k s h.
      ap (live t) (change_self k (live_until now (now + ttl)) s)
      ∙ live-live_until now (now + ttl) t (s k);
  get-expire_ne = λ now t ttl k j s h. ap (live t) (change_ne k j (live_until now (now + ttl)) s h);
  number_text_injective = λ m n _ _ h. strokes_injective m n h;
  number_text_digits = strokes_digits;
}

abbrev pub no_counters : Text → Slot
no_counters k = absent

pub live_kept :
    (now ttl : ℕ) (x : Slot)
    → 0 < ttl
    → value (live now (live_until now (now + ttl) x)) ≡ value (live now x)
live_kept now ttl absent h = refl
live_kept now ttl (forever n) h = ground arith
live_kept now ttl (until t n) h = ground arith

pub read-expire_kept :
    (now : ℕ) (k j : Text) (ttl : ℕ) (s : Text → Slot)
    → 0 < ttl
    → value (live now (change k (live_until now (now + ttl)) s j)) ≡ value (live now (s j))
read-expire_kept now k j ttl s h = elim (Bool-cases (text_eq k j)) [
  | inl e ↦ rw e (live_kept now ttl (s j) h)
  | inr e ↦ rw e
]

abbrev pub float_counters : FloatCounters units
float_counters = record {
  Store = Text → Slot;
  read = λ now k s. value (live now (s k));
  incr_by = λ now k a s. change k (add_to now a) s;
  expire = λ now k ttl s. change k (live_until now (now + ttl)) s;
  read-incr_by_self = λ now k a s.
      ap (λ x. value (live now x)) (change_self k (add_to now a) s)
      ∙ ap value (live-add_to now a (s k));
  read-incr_by_ne =
      λ now k j a s h. ap (λ x. value (live now x)) (change_ne k j (add_to now a) s h);
  read-expire = read-expire_kept;
}

-- An entitlement with the time until which its key lives.
abbrev Kept : Type 0
Kept = Option (UserEntitlement ℕ × ℕ)

abbrev alive : ℕ → Kept → Option (UserEntitlement ℕ)
alive now none = none
alive now (some (ent, t)) = if ltb now t then some ent else none

abbrev pub entitlements : EntitlementStore ℕ
entitlements = record {
  Store = Text → Kept;
  get_key = λ now k s. alive now (s k);
  set_key = λ now k ent ttl s. change k (λ _. some (ent, now + ttl)) s;
  del_key = λ k s. change k (λ _. none) s;
  get-set = λ now t ttl k ent s h. ap (alive t) (change_self k (λ _. some (ent, now + ttl)) s);
  get-del = λ t k s. ap (alive t) (change_self k (λ _. none) s);
}

abbrev pub alice : UserEntitlement ℕ
alice = record {
  user_id = codes "alice";
  org_id = codes "acme";
  allowed_prompts = codes "*" ∷ [];
  allowed_skills = codes "write*" ∷ [];
  allowed_mcps = codes "files" ∷ [];
  permissions = [];
  budget_limit_usd = 10;
  rate_limit_rpm = pos 60;
  rate_limit_tpm = pos 1000;
  data_scope = codes "org";
  expires_at = 5_000;
}

abbrev pub inquiry : InquiryRequest ℕ
inquiry = record {
  request_id = codes "r1";
  user_id = codes "alice";
  org_id = codes "acme";
  provider = codes "openai";
  model = codes "gpt-4o";
  messages = record { role = codes "user"; content = codes "hello"; name = [] } ∷ [];
  tools = [];
  stream = false;
  temperature = 1;
  max_tokens = pos 100;
  prompt_fqn = [];
  variables = [];
  metadata = [];
  received_at = 0;
}
