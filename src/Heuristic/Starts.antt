-- ===== src/Heuristic/Starts.antt =====
-- The loop of `Start`, internal/heuristic/engine.go, in time: when it runs a tick and when it returns.
-- `time.Ticker` keeps at most one tick that was not yet received, and `select` takes either of two
-- channels that are ready.
pub mod Returns
use kovern.Prelude.{ℕ, zero, suc, ◌+◌, ◌-◌, ◌%◌, Bool, not, ◌&&◌, List, [], ◌∷◌, leb, if◌then◌else◌}
use kovern.Prelude.Int.{pos}
use kovern.Time.{Time, Duration}
use kovern.Spans.{SpanStore}
use kovern.Cluster.Client.{Client}
use kovern.Remediation.{M, ◌>>=◌, pure}
use kovern.Heuristic.{Engine, new, interval, tick}

-- What the loop meets: when its context is cancelled, and for each round how long the tick takes,
-- what `select` takes where both channels are ready, and what the rest of the world does before.
pub record Circumstances (W : Type 0) : Type 0 where
  pub cancelled_at : Time
  pub takes : ℕ → ℕ
  pub prefers_tick : ℕ → Bool
  pub before : ℕ → W → W

pub data Ended : Type 0 where
  returned : Time → Engine → Ended
  panicked : Ended
  out_of_fuel : Ended

abbrev pub min : ℕ → ℕ → ℕ
min a b = if leb a b then a else b

abbrev pub max : ℕ → ℕ → ℕ
max a b = if leb a b then b else a

-- The first time after `now` at which the ticker sends: it sent at `due` and every `period` from there.
abbrev pub next_due : (period due now : ℕ) → ℕ
next_due period due now = now + period - ((now - due) % period)

-- When `select` goes on: at once if a channel is ready, or else with the first that is.
abbrev pub wakes : (cancelled due now : Time) → Time
wakes cancelled due now = max now (min due cancelled)

module _ {W S P : Type 0} (c : Client W S P) (store : W → SpanStore) (put_store : SpanStore → W → W)
    (at : Circumstances W) where
  -- `select` takes `ctx.Done()`.
  abbrev pub is_done : (round : ℕ) (due wake : Time) → Bool
  is_done round due wake = leb at.cancelled_at wake && not (leb due wake && at.prefers_tick round)

  -- The loop from its round `round`, which it reaches at the time `now`, with the ticker's next tick
  -- due at `due`.
  unfoldable pub start_loop : (fuel period round : ℕ) (due now : Time) → Engine → M W Ended
  start_loop zero period round due now e = pure out_of_fuel
  start_loop (suc fuel) period round due now e =
      let wake = wakes at.cancelled_at due now in
      let again : M W Ended = λ w.
        (tick c store put_store e
            >>= start_loop fuel period (suc round) (next_due period due wake)
                (wake + at.takes round))
          (at.before round w) in
      if is_done round due wake then pure (returned wake e) else again

  -- `Start` with the interval `d` of the engine. `NewTicker` panics where it is not positive.
  unfoldable pub start_every : (fuel : ℕ) → Time → Duration → M W Ended
  start_every fuel now (pos (suc n)) = start_loop fuel (suc n) 0 (now + suc n) now new
  start_every fuel now _ = pure panicked

  unfoldable pub start : (fuel : ℕ) → Time → Duration → M W Ended
  start fuel now d = start_every fuel now (interval d)
