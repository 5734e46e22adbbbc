-- ===== src/Policy/RateLimit/Script/Refines.antt =====
-- The sliding-window script (ratelimit.go) against the history of its calls.
use mathlib.Core.Path.{subst₂, ap₂}
use pangreksa_aigateway.Prelude.{
  ℕ, zero, suc, ◌+◌, ◌-◌, ◌*◌, ◌/◌, ◌^◌, ◌≤◌, ◌<◌, ◌≡◌, ◌≢◌, refl, sym, ap, ◌∙◌, Bool, ◌&&◌, List,
  [], ◌∷◌, none, arith, ltb, leb, ◌==◌, if◌then◌else◌, inl, inr, Bool-cases, lt→ltb,
}
use pangreksa_aigateway.Prelude.Texts.{Text, text_eq, text_eq_sound, text_eq_refl}
use pangreksa_aigateway.Prelude.Int.{pos, ltb_ℤ}
use pangreksa_aigateway.Policy.RateLimit.Counters.{Counters, value}
use pangreksa_aigateway.Policy.RateLimit.Script.{
  bucket, bucket_size, bucket_ttl, bucket_key, total_of, count_call, sliding_window, replies,
  ScriptCall,
}
use pangreksa_aigateway.Policy.RateLimit.Script.Keys.{bucket_key_injective}

-- The calls so far, newest first: their prefixes and times.
abbrev pub History : Type 0
History = List (Text × ℕ)

-- The calls of one prefix that satisfy a test of their time.
unfoldable pub count : Text → (ℕ → Bool) → History → ℕ
count p test [] = 0
count p test ((q, t) ∷ h) =
    let rest = count p test h in if text_eq q p && test t then suc rest else rest

-- A call at `t` lies in the last `n` buckets up to `current`.
abbrev pub in_last : ℕ → ℕ → ℕ → Bool
in_last n current t = ltb current (bucket t + n * bucket_size) && leb (bucket t) current

-- A call at `t` is counted by one at `now`: it lies in the twelve buckets up to that of `now`.
abbrev pub in_window : ℕ → ℕ → Bool
in_window now t = in_last 12 (bucket now) t

-- One bucket more.
count-suc :
    (p : Text) (n c : ℕ) (h : History)
    → n ≤ c
    → count p (in_last (suc n) (c * 5)) h
      ≡ count p (in_last n (c * 5)) h + count p (λ t. bucket t == c * 5 - n * 5) h
unfolding count
count-suc p n c [] l = refl
count-suc p n c ((q, t) ∷ h) l = ground (arith, count-suc p n c h l)

count-zero : (p : Text) (c : ℕ) (h : History) → count p (in_last 0 c) h ≡ 0
unfolding count
count-zero p c [] = refl
count-zero p c ((q, t) ∷ h) = ground (arith, count-zero p c h)

module _ (r : Counters) where
  open r use {Store, get, incr, expire, get-incr_self, get-incr_ne, get-expire_self, get-expire_ne}

  -- At `now` and until a bucket is 65 seconds old, its counter is the number of its calls.
  record Agrees (now : ℕ) (s : Store) (h : History) : Type 0 where
    counter :
        (p : Text) (t b : ℕ)
        → now ≤ t
        → t < b + bucket_ttl
        → b < 10 ^ 14
        → value (get t (bucket_key r p b) s) ≡ count p (λ u. bucket u == b) h

  total_of-count :
      (now c : ℕ) (p : Text) (s : Store) (h : History) (n : ℕ)
      → Agrees now s h
      → c * 5 ≤ now
      → now < c * 5 + 5
      → now < 10 ^ 14
      → n ≤ 12
      → n ≤ c
      → total_of r now p (c * 5) s n ≡ count p (in_last n (c * 5)) h
  unfolding total_of
  total_of-count now c p s h zero a lo hi big few l = sym (count-zero p (c * 5) h)
  total_of-count now c p s h (suc n) a lo hi big few l = omega (
    arith,
    total_of-count now c p s h n a lo hi big (omega arith) (omega arith),
    a.counter p now (c * 5 - n * 5) (omega arith) (omega arith) (omega arith),
    count-suc p n c h (omega arith),
  )

  -- The counter of a key after the writes of a call: the call's own key goes up by one.
  counter-count_call_self :
      (now t : ℕ) (p : Text) (s : Store)
      → now ≤ t
      → t < now + bucket_ttl
      → value (get t (bucket_key r p (bucket now)) (count_call r now p s))
        ≡ suc (value (get now (bucket_key r p (bucket now)) s))
  unfolding count_call
  counter-count_call_self now t p s h l = rw (
    get-expire_self now t bucket_ttl (bucket_key r p (bucket now)) (incr now _ s) h,
    lt→ltb t (now + bucket_ttl) l,
    get-incr_self now (bucket_key r p (bucket now)) s,
  )

  counter-count_call_ne :
      (now t : ℕ) (p q : Text) (b : ℕ) (s : Store)
      → bucket_key r q (bucket now) ≢ bucket_key r p b
      → value (get t (bucket_key r p b) (count_call r now q s)) ≡ value (get t (bucket_key r p b) s)
  unfolding count_call
  counter-count_call_ne now t p q b s h =
      rw (get-expire_ne now t bucket_ttl _ _ (incr now _ s) h, get-incr_ne now t _ _ s h)

  count_call-Agrees :
      (now later : ℕ) (q : Text) (s : Store) (h : History)
      → now ≤ later
      → later < 10 ^ 14
      → Agrees now s h
      → Agrees later (count_call r later q s) ((q, later) ∷ h)
  unfolding count
  count_call-Agrees now later q s h l big a = record {
    counter = λ p t b from alive small. elim (Bool-cases (text_eq q p && (bucket later == b))) [
      | inl e ↦
          let here : (q ≡ p) × (bucket later ≡ b) =
            (text_eq_sound q p (ground arith), ground arith) in
          rw e (
            subst₂
              (λ p b.
                value (get t (bucket_key r p b) (count_call r later q s))
                ≡ suc (count p (λ u. bucket u == b) h))
              here.0 here.1
              (counter-count_call_self later t q s from (omega arith)
                ∙ ap suc (a.counter q later (bucket later) l (omega arith) (omega arith))))
      | inr e ↦ rw e (
          counter-count_call_ne later t p q b s (λ same.
            let here = bucket_key_injective r q p (bucket later) b (omega arith) small same in
            ground (arith, e, here.1, text_eq_refl p, ap (λ x. text_eq x p) here.0))
          ∙ a.counter p t b (omega arith) alive small)
    ];
  }

-- What a call of the script should reply, told from the history alone.
abbrev pub verdict : ScriptCall → History → ℕ
verdict c h = if ltb_ℤ c.limit (pos (count c.key_prefix (in_window c.now) h)) then 0 else 1

-- The replies that a sliding window over the history gives.
unfoldable pub window_replies : History → List ScriptCall → List ℕ
window_replies h [] = []
window_replies h (c ∷ cs) =
    let h' = (c.key_prefix, c.now) ∷ h in verdict c h' ∷ window_replies h' cs

-- The calls come in the order of their times, from `t` on and before `end`.
abbrev pub IsTimed : ℕ → List ScriptCall → ℕ → Type 0
IsTimed t [] end = t ≤ end
IsTimed t (c ∷ cs) end = (t ≤ c.now) × IsTimed c.now cs end

IsTimed-le : (t end : ℕ) (cs : List ScriptCall) → IsTimed t cs end → t ≤ end
IsTimed-le t end [] h = h
IsTimed-le t end (c ∷ cs) h = omega (arith, IsTimed-le c.now end cs h.1)

module _ (r : Counters) where
  open r use {Store, get}

  reply-sliding_window :
      (c : ScriptCall) (s : Store) (h : History)
      → Agrees r c.now (count_call r c.now c.key_prefix s) h
      → 60 ≤ c.now
      → c.now < 10 ^ 14
      → (sliding_window r c.now c.key_prefix c.limit s).0 ≡ verdict c h
  unfolding sliding_window
  reply-sliding_window c s h a late big = rw (
      total_of-count r c.now (c.now / 5) c.key_prefix _ h 12 a (omega arith) (omega arith) big
        (omega arith) (omega arith))

  replies-window_replies_from :
      (t end : ℕ) (s : Store) (h : History) (cs : List ScriptCall)
      → Agrees r t s h
      → 60 ≤ t
      → end < 10 ^ 14
      → IsTimed t cs end
      → replies r s cs ≡ window_replies h cs
  unfolding replies window_replies sliding_window
  replies-window_replies_from t end s h [] a late big timed = refl
  replies-window_replies_from t end s h (c ∷ cs) a late big timed =
      let small : c.now < 10 ^ 14 = omega (arith, IsTimed-le c.now end cs timed.1) in
      let after = count_call-Agrees r t c.now c.key_prefix s h timed.0 small a in
      ap₂ ◌∷◌ (reply-sliding_window c s ((c.key_prefix, c.now) ∷ h) after (omega arith) small) (
        replies-window_replies_from c.now end (count_call r c.now c.key_prefix s) _ cs after
          (omega arith) big timed.1)

  -- Let the calls of the script, by any number of daemons and for any rules and entities, come in
  -- the order of their times, on a store with no counter yet. Then each reply is 1 exactly when the
  -- calls of its prefix so far, refused ones and itself included, whose five-second buckets are the
  -- current one or the eleven before it, are at most the limit: no key's expiry, and no other
  -- prefix, disturbs the count. (Times are Unix seconds between 00:01 of the first day and 10^14.)
  pub replies-window_replies :
      (t end : ℕ) (s : Store) (cs : List ScriptCall)
      → ((u : ℕ) (k : Text) → get u k s ≡ none)
      → 60 ≤ t
      → end < 10 ^ 14
      → IsTimed t cs end
      → replies r s cs ≡ window_replies [] cs
  unfolding count
  replies-window_replies t end s cs empty late big timed =
      replies-window_replies_from t end s [] cs
        (record { counter = λ p u b from alive small. rw (empty u (bucket_key r p b)) refl }) late
        big timed
