-- ===== src/Ledger/Budgets.antt =====
-- States that a recorded spend never gives.
use kovern.Prelude.{◌≢◌, arith}
use kovern.Prelude.Int.{ℤ}
use kovern.Float.{Float64}
use kovern.Time.{Time}
use kovern.Api.{suspended}
use kovern.Ledger.{Entry, compute_state, spend}

module _ {F : Type 0} ⦃f : Float64 F⦄ where
  compute_state-suspended : (e : Entry F) → compute_state e ≢ suspended
  unfolding compute_state
  compute_state-suspended e h = ground (arith, h)

  -- A recorded spend never leaves an entry `Suspended`: it computes the state anew from the spend
  -- and the limits, also where the state was `Suspended` before.
  spend-suspended :
      (now : Time) (usd : F) (tokens : ℤ) (e : Entry F) → (spend now usd tokens e).state ≢ suspended
  unfolding spend
  spend-suspended now usd tokens e h = compute_state-suspended _ h
