-- ===== src/Tests/Rounds.antt =====
-- The reconciler: rounds over time, and a restart of the process.
use kovern.Prelude.{ℕ, ◌≡◌, refl, some, List, [], ◌∷◌, arith, inl, inr, AnyOf}
use kovern.Prelude.Int.{pos}
use kovern.Prelude.Text.{Text, codes, parse_int, text_eq}
use kovern.Prelude.Dict.{lookup, insert}
use kovern.Float.Fixed.{Fixed, fixed_float, print, times}
use kovern.Time.{Time}
use kovern.Api
use kovern.Api.{TokenQuota}
use kovern.Ledger
use kovern.Ledger.{Cache, Entry, key, get, check, sync, synced}
use kovern.Quota.{Update, update_error, fetched, Readings, reconcile, mirror}
use kovern.Quota.Failures.{Answered, reconcile-Answered}
use kovern.Quota.Cycles.{StartsPeriod, rounds, accept, rounds-StartsPeriod}
use kovern.Quota.Restarts.{get-restarted, before, restarted}
use kovern.Tests.Fixtures.{team, agent, whole, one, used_up, quota}

abbrev pub at : Time → Readings
at t = record {
  synced_at = t;
  checked_at = t;
  reset_at = t;
  scheduled_at = t;
  updated_at = t;
  waited_at = t;
}

abbrev object : Text
object = codes "agent-quota"

-- The second round comes at the renewal time itself, which is too early, and the third one later.
abbrev three : List (Readings × Cache Fixed)
three = (at 2000, one) ∷ (at 3000, Ledger.new) ∷ (at 3050, one) ∷ []

rounds-StartsPeriod_example : AnyOf (StartsPeriod 3000) (rounds whole object (quota 3000) three)
rounds-StartsPeriod_example =
    rounds-StartsPeriod whole object (quota 3000) three refl
      (omega arith, (omega arith, (omega arith, tt))) (inr (inr (inl (omega arith))))

abbrev early : Readings
early = at 2000

abbrev fresh_start : Readings
fresh_start = at 2500

-- What the status of the object gives.
abbrev mirrored_entry : Entry Fixed
mirrored_entry = record used_up {
  spent_usd = pos 3;
  spent_tokens = pos 40;
  run_count = pos 2;
  state = Api.active;
  next_renewal = 3000;
  updated_at = 2000;
}

found :
    get (before whole early fresh_start accept accept one object (quota 3000)).cache team agent
    ≡ some mirrored_entry
unfolding reconcile mirror sync synced get lookup insert key text_eq parse_int times
found = refl

exact : fixed_float.parse (fixed_float.format6 (pos 3)) ≡ some (pos 3)
unfolding print parse_int
exact = refl

get-restarted_example :
    (get (restarted whole early fresh_start accept accept one object (quota 3000)).cache team agent
      ≡ some (record mirrored_entry { updated_at = 2500 }))
    × (check 2600
          (restarted whole early fresh_start accept accept one object (quota 3000)).cache
          team
          agent
        ≡ check 2600
            (before whole early fresh_start accept accept one object (quota 3000)).cache
            team
            agent)
get-restarted_example =
    get-restarted whole early fresh_start accept accept one object (quota 3000) 2600 refl
      (omega arith) (omega arith) found refl exact

-- The API refuses every update.
abbrev refuse : ℕ → TokenQuota ℕ → Update
refuse n tq = update_error (codes "forbidden")

reconcile-Answered_example :
    let out = reconcile early refuse whole one team object (fetched (quota 1500)) in
    Answered refuse out.writes out.outcome
reconcile-Answered_example = reconcile-Answered refuse early whole one team object (quota 1500)
