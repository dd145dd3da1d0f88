-- ===== src/Tests/Views.antt =====
-- Two calls about different accounts, in both orders.
use kovern.Prelude.{ℕ, ◌≡◌, List, [], ◌∷◌, keep, refl, Bool-cases, inl, inr}
use kovern.Prelude.Int.{pos}
use kovern.Prelude.Text.{Text, text_eq, text_eq→eq}
use kovern.Float.Fixed.{Fixed, fixed_float}
use kovern.Ledger.Runs.{Call, spends, names, run}
use kovern.Ledger.Views.{view}
use kovern.Webhook.{handle}
use kovern.Webhook.Decisions.{is_denied}
use kovern.Webhook.Views.{handle-view-run}
use kovern.Tests.Fixtures.{team, agent, other, usd, whole, one, decode, request}

abbrev of_agent : Call Fixed ℕ
of_agent = spends 5 team agent (usd 1) (pos 100)

abbrev of_other : Call Fixed ℕ
of_other = spends 6 team other (usd 2) (pos 30)

abbrev in_order : List (Call Fixed ℕ)
in_order = of_agent ∷ of_other ∷ []

abbrev swapped : List (Call Fixed ℕ)
swapped = of_other ∷ of_agent ∷ []

same_calls : (ns sa : Text) → keep (names ns sa) in_order ≡ keep (names ns sa) swapped
unfolding text_eq
same_calls ns sa = elim (Bool-cases (text_eq team ns)) [
  | inr e ↦ rw e refl
  | inl e ↦ rw e (elim (Bool-cases (text_eq agent sa)) [
    | inr e' ↦ rw e' refl
    | inl e' ↦ rw (← text_eq→eq agent sa e') refl
  ])
]

handle-view-run_example :
    (view (run whole one in_order) ≡ view (run whole one swapped))
    × (is_denied (handle decode 900 (run whole one in_order) request)
        ≡ is_denied (handle decode 900 (run whole one swapped) request))
handle-view-run_example =
    handle-view-run decode 900 whole one in_order swapped request refl (refl, (refl, tt))
      (refl, (refl, tt)) same_calls
