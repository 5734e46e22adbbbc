-- ===== src/Daemon/Probe/Attempts.antt =====
-- probe.go: when the probe ends, and how long it waits.
use mathlib.Core.Path.{subst}
use pangreksa_aigateway.Prelude.{
  ◌⊎◌, ℕ, zero, suc, ◌+◌, ◌/◌, ◌≤◌, ◌<◌, ◌≡◌, refl, ap, true, false, ◌&&◌, ◌∷◌, ltb, leb, Option,
  none, some, ok, err, length, All, arith, inl, inr, Bool-cases, Option-cases, Result-cases,
}
use pangreksa_aigateway.Prelude.Texts.{Text}
use pangreksa_aigateway.Model.Format.{Format}
use pangreksa_aigateway.Daemon.Probe.{
  initial_delay, max_delay, Prober, Outside, next_delay, check, Run, stopped, reached, unreachable,
  cancelled, give_up_or_wait, loop, run,
}

module _ (fmt : Format) where
  -- The probe has ended, after at most `n` waits, each of two to forty-five seconds.
  pub record Ended (n : ℕ) (result : Option (Run fmt)) : Type 0 where
    pub ran : Run fmt
    pub returned : result ≡ some ran
    pub few : length ran.waits ≤ n
    pub bounded : All (λ wait. (initial_delay ≤ wait) × (wait < 45_000_000_000)) ran.waits

  -- `rand.Int63n` stays below its bound.
  abbrev pub IsJitter : Outside → Type 0
  IsJitter io = (i n : ℕ) → 0 < n → io.jitter i n < n

  abbrev IsDelay : ℕ → Type 0
  IsDelay delay = (initial_delay ≤ delay) × (delay ≤ max_delay)

  next_delay-IsDelay : (delay : ℕ) → IsDelay delay → IsDelay (next_delay delay)
  unfolding next_delay
  next_delay-IsDelay delay h = ground arith

  -- The rest of the loop is reached only if there is a retry left.
  give_up_or_wait-Ended :
      (p : Prober) (io : Outside) (n attempt delay : ℕ) (next : Option (Run fmt))
      → 0 < p.max_retries
      → IsJitter io
      → IsDelay delay
      → (leb p.max_retries attempt ≡ false → (m : ℕ) × (n ≡ suc m) × Ended m next)
      → Ended n (give_up_or_wait fmt p io attempt delay next)
  unfolding give_up_or_wait
  give_up_or_wait-Ended p io n attempt delay next few small d rest =
      elim (Bool-cases (leb p.max_retries attempt)) [
        | inl over ↦
            let stops : (ltb 0 p.max_retries && leb p.max_retries attempt) ≡ true = ground arith in
            record {
              ran = stopped fmt (unreachable fmt attempt);
              returned = rw (stops, give_up_or_wait);
              few = omega arith;
              bounded = tt;
            }
        | inr left ↦
            let goes : (ltb 0 p.max_retries && leb p.max_retries attempt) ≡ false = ground arith in
            elim (Option-cases (io.ends attempt)) [
              | inr (e, ended) ↦ record {
                ran = stopped fmt (cancelled fmt e);
                returned = rw (goes, give_up_or_wait, ended);
                few = omega arith;
                bounded = tt;
              }
              | inl waits ↦
                  let (m, e, ended) = rest left in
                  let below = small attempt (delay / 2) (omega arith) in
                  record {
                    ran = record ended.ran {
                      waits = (delay + io.jitter attempt (delay / 2)) ∷ ended.ran.waits;
                    };
                    returned = rw (goes, give_up_or_wait, waits, ended.returned);
                    few = omega (arith, ended.few);
                    bounded = ((omega arith, omega arith), ended.bounded);
                  }
            ]
      ]

  one_round-Ended :
      (fuel : ℕ) (p : Prober) (io : Outside) (made delay : ℕ)
      → 0 < p.max_retries
      → IsJitter io
      → IsDelay delay
      → (leb p.max_retries (suc made) ≡ false
          → (m : ℕ) × (fuel ≡ suc m) × Ended m (loop fmt fuel p io (suc made) (next_delay delay)))
      → Ended fuel (loop fmt (suc fuel) p io made delay)
  unfolding loop
  one_round-Ended fuel p io made delay few small d rest =
      elim (Result-cases (check fmt (io.replies (suc made)))) [
        | inl (_, good) ↦ record {
          ran = reached fmt;
          returned = rw (good, loop);
          few = omega arith;
          bounded = tt;
        }
        | inr (m, bad) ↦
            rw (bad, loop) (give_up_or_wait-Ended p io fuel (suc made) delay _ few small d rest)
      ]

  loop-Ended :
      (fuel : ℕ) (p : Prober) (io : Outside) (made delay : ℕ)
      → 0 < p.max_retries
      → IsJitter io
      → IsDelay delay
      → made + suc fuel ≡ p.max_retries
      → Ended fuel (loop fmt (suc fuel) p io made delay)
  loop-Ended zero p io made delay few small d e =
      one_round-Ended zero p io made delay few small d (λ left. absurd (ground arith))
  loop-Ended (suc m) p io made delay few small d e =
      one_round-Ended (suc m) p io made delay few small d (λ left. (
        m,
        refl,
        loop-Ended m p io (suc made) (next_delay delay) few small (next_delay-IsDelay delay d)
            (omega arith),
      ))

  -- With a positive bound on the retries the probe ends, whatever the server answers: that many
  -- rounds of its loop are enough fuel, there is a wait between two attempts only, and each wait takes
  -- at least two and less than forty-five seconds.
  pub run-Ended :
      (p : Prober) (io : Outside) (retries : ℕ)
      → p.max_retries ≡ suc retries
      → IsJitter io
      → Ended retries (run fmt (suc retries) p io)
  unfolding run
  run-Ended p io retries e small =
      loop-Ended retries p io 0 initial_delay (omega arith) small (omega arith, omega arith)
        (omega arith)

  -- The server is reachable at this attempt, and at none before; no wait between is cut short.
  pub record ReachedAt (n made : ℕ) (io : Outside) : Type 0 where
    pub late : (i : ℕ) → made < i → i < n → (e : Text) × (check fmt (io.replies i) ≡ err e)
    pub live : (i : ℕ) → made < i → i < n → io.ends i ≡ none
    pub good : check fmt (io.replies n) ≡ ok tt

  -- The probe has ended well, after `k` waits.
  abbrev pub Succeeds : ℕ → Option (Run fmt) → Type 0
  Succeeds k result =
      (ran : Run fmt) × (result ≡ some ran) × (ran.outcome ≡ ok tt) × (length ran.waits ≡ k)

  one_round-Succeeds :
      (k fuel : ℕ) (p : Prober) (io : Outside) (made delay : ℕ) (e : Text)
      → check fmt (io.replies (suc made)) ≡ err e
      → (ltb 0 p.max_retries && leb p.max_retries (suc made)) ≡ false
      → io.ends (suc made) ≡ none
      → Succeeds k (loop fmt fuel p io (suc made) (next_delay delay))
      → Succeeds (suc k) (loop fmt (suc fuel) p io made delay)
  unfolding loop give_up_or_wait
  one_round-Succeeds k fuel p io made delay e bad goes lives (ran, returned, well, waited) = (
    record ran { waits = (delay + io.jitter (suc made) (delay / 2)) ∷ ran.waits },
    rw (bad, loop, goes, give_up_or_wait, lives, returned),
    well,
    ap suc waited,
  )

  loop-Succeeds :
      (k fuel : ℕ) (p : Prober) (io : Outside) (made delay : ℕ)
      → k ≤ fuel
      → (p.max_retries ≡ 0) ⊎ (made + suc k ≤ p.max_retries)
      → ReachedAt (made + suc k) made io
      → Succeeds k (loop fmt (suc fuel) p io made delay)
  unfolding loop
  loop-Succeeds zero fuel p io made delay enough few r =
      let good : check fmt (io.replies (suc made)) ≡ ok tt =
        subst (λ n. check fmt (io.replies n) ≡ ok tt) (omega arith) r.good in
      (reached fmt, rw (good, loop), refl, refl)
  loop-Succeeds (suc k) zero p io made delay enough few r = absurd (omega arith)
  loop-Succeeds (suc k) (suc fuel) p io made delay enough few r =
      let (e, bad) = r.late (suc made) (omega arith) (omega arith) in
      one_round-Succeeds k (suc fuel) p io made delay e bad (ground arith)
        (r.live (suc made) (omega arith) (omega arith))
        (loop-Succeeds k fuel p io (suc made) (next_delay delay) (omega arith) (ground arith)
          (record {
            late = λ i low high. r.late i (omega arith) (omega arith);
            live = λ i low high. r.live i (omega arith) (omega arith);
            good = subst (λ n. check fmt (io.replies n) ≡ ok tt) (omega arith) r.good;
          }))

  -- If the server is reachable at the n-th attempt and at none before, no wait is cut short, and the
  -- retries are unbounded or at least n, then the probe ends well after n - 1 waits, on any fuel of
  -- at least n rounds. (The statement has n as `suc k`, and the fuel as `suc fuel`.)
  pub run-Succeeds :
      (k fuel : ℕ) (p : Prober) (io : Outside)
      → k ≤ fuel
      → (p.max_retries ≡ 0) ⊎ (suc k ≤ p.max_retries)
      → ReachedAt (suc k) 0 io
      → Succeeds k (run fmt (suc fuel) p io)
  unfolding run
  run-Succeeds k fuel p io enough few r =
      loop-Succeeds k fuel p io 0 initial_delay enough (ground arith)
        (subst (λ n. ReachedAt n 0 io) (omega arith) r)
