-- ===== src/Tests/Promises.antt =====
-- A used-up budget over some operations of the operator.
use kovern.Prelude.{ℕ, ◌≡◌, refl, true, List, [], ◌∷◌, inl, inr, arith, All}
use kovern.Prelude.Int.{pos}
use kovern.Prelude.Text.{codes, text_eq, parse_int, digits_value}
use kovern.Float.Fixed.{times, Fixed, fixed_float, Fixed-IsIeee}
use kovern.Api
use kovern.Api.{TokenQuota}
use kovern.Quota.{fetched, not_found}
use kovern.Quota.Cycles.{accept}
use kovern.Receiver.Attributes.{TraceRequest}
use kovern.Webhook.Decisions.{is_denied}
use kovern.Operator.{review}
use kovern.Operator.Events.{Event, receives, reconciles, ticks, changes, all_happen}
use kovern.Operator.Budgets.{ServesUsedUp}
use kovern.Operator.Promises.{AreHarmless, review-all_happen}
use kovern.Tests.Fixtures.{team, agent, other, usd, whole, decode, request, client, quota, pod}
use kovern.Tests.Traces.{traces, take, clock}
use kovern.Tests.Quotas.{got, used_up-UsedUp}
use kovern.Tests.Rounds.{at}
use kovern.Tests.Systems.{running_system, fair}

-- The account's own quota with a status of 12 dollars, in millionths, as the ledger has it.
abbrev exhausted : TokenQuota ℕ
exhausted = record (quota 1000) {
  status = record (quota 1000).status { spent_usd = codes "12000000"; state = Api.exceeded };
}

exhausted-ServesUsedUp : ServesUsedUp Fixed whole 10 1000 (at 600) exhausted
unfolding parse_int digits_value times
exhausted-ServesUsedUp = record {
  budget = refl;
  state = refl;
  spent = usd 12;
  parsed = refl;
  reached = Fixed-IsIeee.of_int_mono (pos 10) (pos 12) (omega arith);
  renewal = refl;
  unpassed = refl;
}

-- A request with traces, the account's own quota, a quota of another account, one that is gone, a tick
-- and a change.
abbrev events : List (Event ℕ ℕ (TraceRequest Fixed))
events =
    receives clock traces
    ∷ reconciles (at 600) accept team (codes "agent-quota") (fetched exhausted)
    ∷ reconciles (at 610) accept team (codes "other-quota") (
        fetched record (quota 500) {
          spec = record (quota 500).spec {
            target_ref = record { kind = codes "ServiceAccount"; name = other };
          };
        })
    ∷ reconciles (at 620) accept team other not_found
    ∷ ticks 630
    ∷ changes 7
    ∷ []

events-AreHarmless : All (AreHarmless Fixed-IsIeee whole take 10 1000 team agent) events
unfolding text_eq
events-AreHarmless = (
  fair,
  (
    (refl, refl, inr (refl, refl, exhausted-ServesUsedUp)),
    ((refl, refl, inl refl), ((refl, refl), (tt, (tt, tt)))),
  ),
)

review-all_happen_example :
    is_denied (review decode 900 request (all_happen client whole take events running_system))
    ≡ true
review-all_happen_example =
    review-all_happen Fixed-IsIeee client whole take decode running_system events 900 request pod 10
      refl got used_up-UsedUp events-AreHarmless refl refl (inr (omega arith))
