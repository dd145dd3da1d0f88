-- ===== src/Heuristic/Starts/Returns.antt =====
-- `Start` returns.
use kovern.Prelude.{
  ℕ, ◌∙◌, zero, suc, ◌+◌, ◌*◌, ◌≤◌, ◌<◌, ◌≡◌, refl, List, [], ◌∷◌, arith, Bool-cases, inl, inr,
  true, false,
}
use kovern.Prelude.Int.{pos}
use kovern.Time.{Time, Duration}
use kovern.Spans.{SpanStore}
use kovern.Cluster.Client.{Client}
use kovern.Heuristic.{Engine, new, interval, tick, ticks}
use kovern.Heuristic.Starts.{
  Circumstances, Ended, returned, next_due, wakes, is_done, start_loop, start_every, start,
}

-- What the rest of the world does before the `n` rounds from the round `i`.
abbrev pub steps_from : {W : Type 0} → (ℕ → W → W) → ℕ → ℕ → List (W → W)
steps_from before i zero = []
steps_from before i (suc n) = before i ∷ steps_from before (suc i) n

next_due_on_time : (period due : ℕ) → 0 < period → next_due period due due ≡ due + period
next_due_on_time period due h = grind arith

module _ {W S P : Type 0} (c : Client W S P) (store : W → SpanStore) (put_store : SpanStore → W → W)
    (at : Circumstances W) (period : ℕ) where
  -- From the round `i`, after `n` ticks, the loop returned within a period of the cancellation.
  pub record Returns (i : ℕ) (e : Engine) (w : W) (r : Ended × W) : Type 0 where
    pub rounds : ℕ
    pub time : Time
    pub result :
        let (e', w') = ticks c store put_store (steps_from at.before i rounds) e w in
        r ≡ (returned time e', w')
    pub cancelled : at.cancelled_at ≤ time
    pub soon : time < at.cancelled_at + period

  -- The loop goes on only with a tick that is due, and only up to the cancellation.
  wakes_on_time :
      (i : ℕ) (due now : Time)
      → now < due
      → is_done c store put_store at i due (wakes at.cancelled_at due now) ≡ false
      → (wakes at.cancelled_at due now ≡ due) × (due ≤ at.cancelled_at)
  wakes_on_time i due now early more = ground arith

  -- It does not go on before the next tick is due.
  is_done_early :
      (i : ℕ) (due now : Time)
      → now < due
      → at.cancelled_at < due
      → is_done c store put_store at i due (wakes at.cancelled_at due now) ≡ true
  is_done_early i due now early before = ground arith

  is_done_bounds :
      (i : ℕ) (due now : Time)
      → 0 < period
      → now < at.cancelled_at + period
      → is_done c store put_store at i due (wakes at.cancelled_at due now) ≡ true
      → (at.cancelled_at ≤ wakes at.cancelled_at due now)
        × (wakes at.cancelled_at due now < at.cancelled_at + period)
  is_done_bounds i due now some_time soon done = ground arith

  stops-Returns :
      (fuel i : ℕ) (due now : Time) (e : Engine) (w : W)
      → 0 < period
      → now < at.cancelled_at + period
      → is_done c store put_store at i due (wakes at.cancelled_at due now) ≡ true
      → Returns i e w (start_loop c store put_store at (suc fuel) period i due now e w)
  unfolding start_loop ticks
  stops-Returns fuel i due now e w some_time soon done =
      let (after, near) = is_done_bounds i due now some_time soon done in
      record {
        rounds = 0;
        time = wakes at.cancelled_at due now;
        result = rw done refl;
        cancelled = after;
        soon = near;
      }

  goes_on :
      (fuel i : ℕ) (due now : Time) (e : Engine) (w : W)
      → 0 < period
      → now < due
      → is_done c store put_store at i due (wakes at.cancelled_at due now) ≡ false
      → let (e', w') = tick c store put_store e (at.before i w) in
        start_loop c store put_store at (suc fuel) period i due now e w
        ≡ start_loop c store put_store at fuel period
            (suc i)
            (due + period)
            (due + at.takes i)
            e'
            w'
  unfolding start_loop
  goes_on fuel i due now e w some_time early more =
      let (on_time, _) = wakes_on_time i due now early more in
      rw (more, on_time, next_due_on_time period due some_time) refl

  start_loop-Returns :
      (n i : ℕ) (due now : Time) (e : Engine) (w : W)
      → 0 < period
      → ((j : ℕ) → at.takes j < period)
      → now < due
      → now < at.cancelled_at + period
      → at.cancelled_at < due + n * period
      → Returns i e w (start_loop c store put_store at (suc n) period i due now e w)
  unfolding ticks
  start_loop-Returns zero i due now e w some_time brief early soon within =
      stops-Returns zero i due now e w some_time soon
        (is_done_early i due now early (omega (arith, within)))
  start_loop-Returns (suc n) i due now e w some_time brief early soon within =
      elim (Bool-cases (is_done c store put_store at i due (wakes at.cancelled_at due now))) [
        | inl done ↦ stops-Returns (suc n) i due now e w some_time soon done
        | inr more ↦
            let (e', w') = tick c store put_store e (at.before i w) in
            let (_, due_first) = wakes_on_time i due now early more in
            let rest =
              start_loop-Returns n (suc i) (due + period) (due + at.takes i) e' w' some_time brief
                (omega (arith, brief i)) (omega (arith, brief i, due_first))
                (omega (arith, within)) in
            record {
              rounds = suc rest.rounds;
              time = rest.time;
              result = goes_on (suc n) i due now e w some_time early more ∙ rest.result;
              cancelled = rest.cancelled;
              soon = rest.soon;
            }
      ]

  start_every_positive :
      (fuel : ℕ) (now : Time) (p : ℕ)
      → 0 < p
      → start_every c store put_store at fuel now (pos p)
        ≡ start_loop c store put_store at fuel p 0 (now + p) now new
  unfolding start_every
  start_every_positive fuel now zero some_time = absurd (omega arith)
  start_every_positive fuel now (suc p) some_time = refl

  -- `Start` returns: within one interval of the cancellation of its context, after some number of
  -- ticks, and with what these leave of the engine and the world, any steps of the rest of the world
  -- between them. That is as long as each tick takes less than the interval, whatever `select`
  -- takes where both of its channels are ready. Fuel for `n` rounds is enough where the
  -- cancellation comes before `n` intervals have passed, and after the start.
  pub start-Returns :
      (n : ℕ) (now : Time) (d : Duration) (w : W)
      → interval d ≡ pos period
      → 0 < period
      → ((j : ℕ) → at.takes j < period)
      → now ≤ at.cancelled_at
      → at.cancelled_at < now + n * period
      → Returns 0 new w (start c store put_store at n now d w)
  unfolding start
  start-Returns zero now d w is some_time brief before within = absurd (omega (arith, within))
  start-Returns (suc n) now d w is some_time brief before within =
      rw (is, start_every_positive (suc n) now period some_time)
        (start_loop-Returns n 0 (now + period) now new w some_time brief (omega arith) (omega arith)
          (omega (arith, within)))
