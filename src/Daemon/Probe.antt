-- ===== src/Daemon/Probe.antt =====
-- internal/probe/probe.go. The loop of `Run` has no bound where `maxRetries` is 0, so it runs on
-- fuel, one unit for an attempt; `none` is a loop that has not ended.
pub mod Attempts
use pangreksa_aigateway.Prelude.{
  ℕ, zero, suc, ◌+◌, ◌*◌, ◌/◌, Bool, true, false, ◌&&◌, List, [], ◌∷◌, ◌++◌, ltb, leb, ◌==◌,
  if◌then◌else◌, Option, none, some, Result, ok, err,
}
use pangreksa_aigateway.Prelude.Texts.{Text, codes}
use pangreksa_aigateway.Prelude.Int.{pos}
use pangreksa_aigateway.Model.Format.{Format}

abbrev pub initial_delay : ℕ
initial_delay = 2_000_000_000

abbrev pub max_delay : ℕ
max_delay = 30_000_000_000

pub record Prober : Type 0 where
  pub server_url : Text
  pub max_retries : ℕ

-- What comes of one request to the health endpoint.
pub data Reply : Type 0 where
  not_built failed : Text → Reply
  responded : ℕ → Reply

-- What the outside does, by the number of the attempt: the reply, the random number below a bound
-- for the wait after it, and whether the context ends during this wait, with which message.
pub record Outside : Type 0 where
  pub replies : ℕ → Reply
  pub jitter : ℕ → ℕ → ℕ  -- rand.Int63n(n)
  pub ends : ℕ → Option Text

unfoldable pub next_delay : ℕ → ℕ
next_delay d = if ltb max_delay (d * 2) then max_delay else d * 2

module _ (fmt : Format) where
  -- `check`: reachable, or the error that goes to the log.
  unfoldable pub check : Reply → Result (Unit {0})
  check (not_built e) = err (codes "probe.check: build request: " ++ e)
  check (failed e) = err (codes "probe.check: http request: " ++ e)
  check (responded status) =
      if status == 200
      then ok tt
      else err (codes "probe.check: unexpected status " ++ fmt.show_int (pos status))

  -- The outcome of `Run`, and the waits in their order.
  pub record Run : Type 0 where
    pub outcome : Result (Unit {0})
    pub waits : List ℕ

  abbrev pub stopped : Text → Run
  stopped e = record { outcome = err e; waits = [] }

  abbrev pub reached : Run
  reached = record { outcome = ok tt; waits = [] }

  abbrev pub unreachable : ℕ → Text
  unreachable attempt =
      codes "probe.Run: Central Server unreachable after "
      ++ (fmt.show_int (pos attempt) ++ codes " attempt(s)")

  abbrev pub cancelled : Text → Text
  cancelled e = codes "probe.Run: context cancelled: " ++ e

  abbrev after_wait : ℕ → Option Run → Option Run
  after_wait wait none = none
  after_wait wait (some r) = some (record r { waits = wait ∷ r.waits })

  -- The end of a round whose check failed; `next` is the rest of the loop.
  unfoldable pub give_up_or_wait : Prober → Outside → ℕ → ℕ → Option Run → Option Run
  give_up_or_wait p io attempt delay next =
      if ltb 0 p.max_retries && leb p.max_retries attempt
      then some (stopped (unreachable attempt))
      else elim (io.ends attempt) [
        | some e ↦ some (stopped (cancelled e))
        | none ↦ after_wait (delay + io.jitter attempt (delay / 2)) next
      ]

  -- The loop, where `done` attempts have been made.
  unfoldable pub loop : ℕ → Prober → Outside → ℕ → ℕ → Option Run
  loop zero p io done delay = none
  loop (suc fuel) p io done delay =
      let attempt = suc done in
      let next = loop fuel p io attempt (next_delay delay) in
      elim (check (io.replies attempt)) [
        | ok _ ↦ some reached
        | err e ↦ give_up_or_wait p io attempt delay next
      ]

  unfoldable pub run : ℕ → Prober → Outside → Option Run
  run fuel p io = loop fuel p io 0 initial_delay
