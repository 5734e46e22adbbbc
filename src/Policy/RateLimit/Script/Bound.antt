-- ===== src/Policy/RateLimit/Script/Bound.antt =====
-- The promise of the sliding window: how many calls of one prefix it can let through.
use mathlib.Core.Path.{subst}
use pangreksa_aigateway.Prelude.{
  ℕ, suc, ◌+◌, ◌^◌, ◌≤◌, ◌<◌, ◌≡◌, Bool, true, ◌&&◌, List, [], ◌∷◌, none, arith, leb, ◌==◌,
  if◌then◌else◌, inl, inr, Bool-cases,
}
use pangreksa_aigateway.Prelude.Texts.{Text, text_eq, text_eq_sound, text_eq_refl}
use pangreksa_aigateway.Prelude.Int.{pos, ◌≤ℤ◌}
use pangreksa_aigateway.Policy.RateLimit.Counters.{Counters}
use pangreksa_aigateway.Policy.RateLimit.Script.{replies, ScriptCall}
use pangreksa_aigateway.Policy.RateLimit.Script.Refines.{
  History, count, in_window, verdict, window_replies, IsTimed, replies-window_replies,
}

abbrev in_span : ℕ → ℕ → Bool
in_span a t = leb a t && leb t (a + 55)

-- How many calls of prefix `p` at times from `a` to `a + 55` got the reply 1.
unfoldable pub accepted : Text → ℕ → List ScriptCall → List ℕ → ℕ
accepted p a (c ∷ cs) (reply ∷ rs) =
    let rest = accepted p a cs rs in
    if text_eq c.key_prefix p && (leb a c.now && leb c.now (a + 55)) && (reply == 1)
    then suc rest
    else rest
accepted p a _ _ = 0

-- No call before or at `t` is in the history with a later time.
abbrev IsPast : ℕ → History → Type 0
IsPast t [] = Unit {0}
IsPast t ((q, u) ∷ h) = (u ≤ t) × IsPast t h

IsPast-later : (t t' : ℕ) (h : History) → t ≤ t' → IsPast t h → IsPast t' h
IsPast-later t t' [] l a = tt
IsPast-later t t' ((q, u) ∷ h) l a = (omega arith, IsPast-later t t' h l a.1)

-- The calls of a span of 56 seconds that lie behind one of its moments are all in its window.
count_span-le :
    (p : Text) (a t : ℕ) (h : History)
    → a ≤ t
    → t ≤ a + 55
    → IsPast t h
    → count p (in_span a) h ≤ count p (in_window t) h
unfolding count
count_span-le p a t [] lo hi past = omega arith
count_span-le p a t ((q, u) ∷ h) lo hi past = ground (arith, count_span-le p a t h lo hi past.1)

-- Every call of the prefix is held to at most `l`.
abbrev pub IsLimited : Text → ℕ → List ScriptCall → Type 0
IsLimited p l [] = Unit {0}
IsLimited p l (c ∷ cs) = (c.key_prefix ≡ p → c.limit ≤ℤ pos l) × IsLimited p l cs

count_grows :
    (p q : Text) (t : ℕ) (test : ℕ → Bool) (h : History)
    → count p test h ≤ count p test ((q, t) ∷ h)
unfolding count
count_grows p q t test h = ground arith

count_here :
    (p : Text) (t : ℕ) (test : ℕ → Bool) (h : History)
    → test t ≡ true
    → count p test ((p, t) ∷ h) ≡ suc (count p test h)
unfolding count
count_here p t test h e = rw (e, text_eq_refl p)

-- A call that gets the reply 1 finds at most its limit of calls in its window.
verdict_passes :
    (c : ScriptCall) (h : History) (l : ℕ)
    → (verdict c h == 1) ≡ true
    → c.limit ≤ℤ pos l
    → count c.key_prefix (in_window c.now) h ≤ l
verdict_passes c h l e k = ground arith

-- One more call of the span goes through: then the span still holds at most `l` of them.
passes :
    (a l t : ℕ) (c : ScriptCall) (h : History) (done : ℕ)
    → IsPast t h
    → t ≤ c.now
    → c.limit ≤ℤ pos l
    → a ≤ c.now
    → c.now ≤ a + 55
    → (verdict c ((c.key_prefix, c.now) ∷ h) == 1) ≡ true
    → done ≤ count c.key_prefix (in_span a) h
    → (suc done ≤ l) × (suc done ≤ count c.key_prefix (in_span a) ((c.key_prefix, c.now) ∷ h))
passes a l t c h done past later limited lo hi passed least =
    let p = c.key_prefix in
    let h' : History = (c.key_prefix, c.now) ∷ h in
    let more = count_here p c.now (in_span a) h (ground arith) in
    let bound = verdict_passes c h' l passed limited in
    let spans = count_span-le p a c.now h' lo hi (omega arith, IsPast-later t c.now h later past) in
    omega arith

accepted_from :
    (p : Text) (a l t end : ℕ) (h : History) (done : ℕ) (cs : List ScriptCall)
    → IsTimed t cs end
    → IsPast t h
    → IsLimited p l cs
    → done ≤ l
    → done ≤ count p (in_span a) h
    → done + accepted p a cs (window_replies h cs) ≤ l
unfolding accepted window_replies
accepted_from p a l t end h done [] timed past limited few least = omega arith
accepted_from p a l t end h done (c ∷ cs) timed past limited few least =
    let h' : History = (c.key_prefix, c.now) ∷ h in
    let past' : IsPast c.now h' = (omega arith, IsPast-later t c.now h timed.0 past) in
    elim (Bool-cases (text_eq c.key_prefix p && in_span a c.now && (verdict c h' == 1))) [
      | inl e ↦
          let same : c.key_prefix ≡ p = text_eq_sound c.key_prefix p (ground arith) in
          let (few', least') =
            passes a l t c h done past timed.0 (limited.0 same) (ground arith) (ground arith)
              (ground arith) (rw same least) in
          let rest =
            accepted_from p a l c.now end h' (suc done) cs timed.1 past' limited.1 few'
              (subst (λ q. suc done ≤ count q (in_span a) h') same least') in
          rw e (omega arith)
      | inr e ↦
          let rest =
            accepted_from p a l c.now end h' done cs timed.1 past' limited.1 few
              (omega (arith, count_grows p c.key_prefix c.now (in_span a) h)) in
          rw e rest
    ]

-- Let the calls of the script come in the order of their times, on a store with no counter yet,
-- those of one prefix with limits of at most `l`. Then in any 56 seconds, from `a` to `a + 55`, at
-- most `l` calls of this prefix get the reply 1, however many are made. (Times are Unix seconds
-- between 00:01 of the first day and 10^14.)
pub accepted-le-limit :
    (r : Counters) (p : Text) (a l t end : ℕ) (s : r.Store) (cs : List ScriptCall)
    → ((u : ℕ) (k : Text) → r.get u k s ≡ none)
    → 60 ≤ t
    → end < 10 ^ 14
    → IsTimed t cs end
    → IsLimited p l cs
    → accepted p a cs (replies r s cs) ≤ l
accepted-le-limit r p a l t end s cs empty late big timed limited =
    rw (replies-window_replies r t end s cs empty late big timed) (
      omega (arith, accepted_from p a l t end [] 0 cs timed tt limited (omega arith) (omega arith)))
