-- ===== src/Tests/Starts.antt =====
-- The engine from its start to the cancellation of its context.
use kovern.Prelude.{ℕ, Option, some, none, true, ◌≡◌, refl, arith}
use kovern.Prelude.Int.{pos}
use kovern.Time.{Time}
use kovern.Spans
use kovern.Heuristic.{new, interval}
use kovern.Heuristic.Starts.{
  Circumstances, Ended, returned, panicked, out_of_fuel, start, start_every, start_loop,
}
use kovern.Heuristic.Starts.Returns.{Returns, start-Returns}
use kovern.Tests.Fixtures.{client}

-- Ticks take 3 of the 10 units between them, and the context is cancelled after 25.
abbrev at : Circumstances ℕ
at = record { cancelled_at = 25; takes = λ _. 3; prefers_tick = λ _. true; before = λ _ w. w }

start-Returns_example :
    Returns client
      (λ _. Spans.new)
      (λ _ w. w)
      at
      10
      0
      new
      100
      (start client (λ _. Spans.new) (λ _ w. w) at 3 0 (pos 10) 100)
unfolding interval
start-Returns_example =
    start-Returns client (λ _. Spans.new) (λ _ w. w) at 10 3 0 (pos 10) 100 refl (omega arith)
      (λ j. omega arith) (omega arith) (omega arith)

abbrev time_of : Ended → Option Time
time_of (returned t e) = some t
time_of panicked = none
time_of out_of_fuel = none

-- The third round is cut short by the cancellation.
start_in_time : time_of (start client (λ _. Spans.new) (λ _ w. w) at 3 0 (pos 10) 100).0 ≡ some 25
unfolding start start_every start_loop interval
start_in_time = refl
