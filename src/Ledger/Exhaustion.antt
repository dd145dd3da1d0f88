-- ===== src/Ledger/Exhaustion.antt =====
-- A used-up budget stays used up under any interleaving of calls, until the account's entry is
-- synchronised, reset or removed.
use kovern.Prelude.{ℕ, Bool, ◌≡◌, refl, true, some, List, [], ◌∷◌, keep, All, All-keep}
use kovern.Prelude.Int.{ℤ}
use kovern.Prelude.Text.{Text}
use kovern.Float.{Float64, IsIeee, ◌≼◌}
use kovern.Ledger.{Cache, Entry, get, spend}
use kovern.Ledger.Keys.{SlashFree}
use kovern.Ledger.Limits.{UsedUp, spend_keeps-UsedUp}
use kovern.Ledger.Runs.{
  Call, syncs, spends, resets, removes, names, NamespacesAreSlashFree, run, effects, get-run,
}

module _ {F Q : Type 0} ⦃f : Float64 F⦄ where
  -- The call records a spend that is not negative.
  abbrev pub IsCharge : Call F Q → Type 0
  IsCharge (spends now ns sa usd tokens) = f.zero ≼ usd
  IsCharge _ = ⊥

  -- Of the calls that name the account, every one records a spend that is not negative.
  abbrev pub OnlyCharges : Text → Text → List (Call F Q) → Type 0
  OnlyCharges ns sa = All (λ call. names ns sa call ≡ true → IsCharge call)

module _ {F Q : Type 0} ⦃f : Float64 F⦄ (laws : IsIeee F) (as_int64 : Q → ℤ × Bool) (m : ℕ) where
  effects-UsedUp :
      (e : Entry F) (calls : List (Call F Q))
      → UsedUp m e
      → All IsCharge calls
      → (e' : Entry F) × (effects as_int64 (some e) calls ≡ some e')
        × UsedUp m e'
        × (e'.next_renewal ≡ e.next_renewal)
  unfolding effects spend
  effects-UsedUp e [] u all = (e, refl, u, refl)
  effects-UsedUp e (spends now ns sa usd tokens ∷ calls) u (charge, all) =
      effects-UsedUp (spend now usd tokens e) calls
        (spend_keeps-UsedUp laws now usd tokens e m charge u) all
  effects-UsedUp e (syncs now tq ∷ calls) u (no_charge, _) = absurd no_charge
  effects-UsedUp e (resets now ns sa ∷ calls) u (no_charge, _) = absurd no_charge
  effects-UsedUp e (removes ns sa ∷ calls) u (no_charge, _) = absurd no_charge

  pub run-UsedUp :
      (c : Cache F) (calls : List (Call F Q)) (ns sa : Text) {e : Entry F}
      → SlashFree ns
      → NamespacesAreSlashFree calls
      → get c ns sa ≡ some e
      → UsedUp m e
      → OnlyCharges ns sa calls
      → (e' : Entry F) × (get (run as_int64 c calls) ns sa ≡ some e')
        × UsedUp m e'
        × (e'.next_renewal ≡ e.next_renewal)
  run-UsedUp c calls ns sa {e} h all found u only =
      rw (get-run as_int64 c calls ns sa h all, found)
        (effects-UsedUp e (keep (names ns sa) calls) u (All-keep IsCharge (names ns sa) calls only))
