-- ===== src/Tests/Quotas.antt =====
-- The quota side: ledger, webhook and reconciler.
use mathlib.Core.Bool.{false≢true}
use kovern.Prelude.{
  Bool, false, ℕ, ◌+◌, ◌*◌, ◌&&◌, if◌then◌else◌, ◌≤◌, ◌≡◌, refl, true, none, some, List, [], ◌∷◌,
  arith, keep, ◌↔◌,
}
use kovern.Prelude.Int.{ℤ, pos, ◌*ℤ◌}
use kovern.Prelude.Text.{codes, text_eq, parse_int}
use kovern.Prelude.Dict.{lookup}
use kovern.Prelude.Result.{ok}
use kovern.Float.Fixed.{Fixed, fixed_float, Fixed-IsIeee, times, quotient}
use kovern.Api.{soft_limit, TokenQuota, monthly}
use kovern.Cluster.{Pod}
use kovern.Quota.Renewals.{next_renewal_bounds, reconcile-not_found}
use kovern.Time.Calendar.{nano_per_day}
use kovern.Quota.{
  Reconciled, Readings, Update, updated, fetched, not_found, reconcile, next_renewal,
}
use kovern.Quota.Staleness.{reconcile-record_spend}
use kovern.Ledger.{Entry, get, key, compute_state, record_spend}
use kovern.Ledger.Limits.{UsedUp, severity, severity_mono}
use kovern.Ledger.Runs.{Call, spends, resets, run, effects, names, NamespacesAreSlashFree, get-run}
use kovern.Ledger.Counts.{Counted, OnlySpends, run-Counted}
use kovern.Ledger.Exhaustion.{OnlyCharges}
use kovern.Webhook.{handle, create, account}
use kovern.Webhook.Decisions.{is_denied, Blocks, handle_denies_iff}
use kovern.Tests.Fixtures.{team, agent, other, usd, whole, used_up, one, decode, request, quota}

pub got : get one team agent ≡ some used_up
unfolding get lookup key text_eq
got = refl

pub used_up-UsedUp : UsedUp 10 used_up
used_up-UsedUp = record {
  positive = omega arith;
  budget = refl;
  spent = Fixed-IsIeee.of_int_mono (pos 10) (pos 12) (omega arith);
  refused = refl;
}

abbrev calls : List (Call Fixed ℕ)
calls =
    spends 5 team agent (usd 1) (pos 100)
    ∷ spends 6 team other (usd 2) (pos 30)
    ∷ resets 7 team other
    ∷ []

calls_slash_free : NamespacesAreSlashFree calls
calls_slash_free = (refl, (refl, (refl, tt)))

calls_charge : OnlyCharges team agent calls
unfolding text_eq times
calls_charge = (
  λ _. Fixed-IsIeee.of_int_mono (pos 0) (pos 1) (omega arith),
  (λ _. Fixed-IsIeee.of_int_mono (pos 0) (pos 2) (omega arith), (λ h. false≢true h, tt)),
)

calls_spend : OnlySpends team agent calls
unfolding text_eq
calls_spend = (λ _. tt, (λ _. tt, (λ h. false≢true h, tt)))

handle_denies_iff_example : (is_denied (handle decode 900 one request) ≡ true) ↔ (
    (p : Pod) × (request.operation ≡ create)
    × (decode request.object ≡ ok p)
    × (e : Entry Fixed) × (get one request.namespace (account p) ≡ some e)
    × Blocks 900 e)
handle_denies_iff_example = handle_denies_iff decode 900 one request

get-run_example :
    get (run whole one calls) team agent
    ≡ effects whole (get one team agent) (keep (names team agent) calls)
get-run_example = get-run whole one calls team agent refl calls_slash_free

run-Counted_example :
    (e : Entry Fixed) × (get (run whole one calls) team agent ≡ some e)
    × Counted used_up (keep (names team agent) calls) e
run-Counted_example =
    run-Counted whole one calls team agent refl calls_slash_free got (omega arith) (omega arith)
      calls_spend

severity_mono_example :
    severity (compute_state used_up)
    ≤ severity (compute_state (record used_up { spent_usd = usd 15 }))
severity_mono_example =
    severity_mono Fixed-IsIeee used_up (usd 15) 10 (omega arith) refl
      (Fixed-IsIeee.of_int_mono (pos 12) (pos 15) (omega arith))

-- At 80 percent of the budget the soft limit is reached.
soft : compute_state (record used_up { spent_usd = usd 8 }) ≡ soft_limit
unfolding compute_state times quotient ◌*ℤ◌
soft = refl

abbrev readings : Readings
readings = record {
  synced_at = 2000;
  checked_at = 2001;
  reset_at = 2002;
  scheduled_at = 2003;
  updated_at = 2004;
  waited_at = 2005;
}

abbrev answer : ℕ → TokenQuota ℕ → Update
answer n tq = updated

reconcile-record_spend_example :
    reconcile readings answer whole
      (record_spend 900 one team agent (usd 1) (pos 5)).0
      team
      (codes "agent-quota")
      (fetched (quota 3000))
    ≡ reconcile readings answer whole one team (codes "agent-quota") (fetched (quota 3000))
unfolding parse_int times
reconcile-record_spend_example =
    reconcile-record_spend whole (quota 3000) refl refl readings answer (codes "agent-quota") one
      900 (usd 1) (pos 5)

abbrev reconciled : ℕ → Reconciled Fixed ℕ
reconciled t = reconcile readings answer whole one team (codes "agent-quota") (fetched (quota t))

next_renewal_bounds_example :
    (5 + 28 * nano_per_day ≤ next_renewal 5 monthly)
    × (next_renewal 5 monthly ≤ 5 + 31 * nano_per_day)
next_renewal_bounds_example = next_renewal_bounds 5 monthly

reconcile-not_found_example :
    get (reconcile readings answer whole one team (codes "agent-quota") not_found).cache team agent
    ≡ (if text_eq team team && text_eq (codes "agent-quota") agent
        then none
        else get one team agent)
reconcile-not_found_example =
    reconcile-not_found whole readings answer one team (codes "agent-quota") team agent refl refl

-- An amount of half a dollar does not convert.
abbrev halves : ℕ → ℤ × Bool
halves n = (pos 0, false)
