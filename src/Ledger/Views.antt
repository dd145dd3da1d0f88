-- ===== src/Ledger/Views.antt =====
-- The ledger as a map: two ledgers are the same view if every account has the same entry in both,
-- however their association lists are ordered. (No namespace holds a slash.)
use mathlib.Core.Quot
use mathlib.Core.Quot.{Quot, Quot-set}
use kovern.Prelude.{◌≡◌, refl, sym, ◌∙◌, ap, Bool, List, keep}
use kovern.Prelude.Int.{ℤ}
use kovern.Prelude.Text.{Text}
use kovern.Float.{Float64}
use kovern.Ledger.{Cache, get}
use kovern.Ledger.Keys.{SlashFree}
use kovern.Ledger.Runs.{
  Call, namespace_of, names, NamespacesAreSlashFree, step, run, effects, get-step, get-run,
}

module _ {F : Type 0} where
  abbrev pub SameEntries : Cache F → Cache F → Type 0
  SameEntries c c' = (ns sa : Text) → SlashFree ns → get c ns sa ≡ get c' ns sa

abbrev pub View : Type 0 → Type 0
View F = Quot (SameEntries {F = F})

abbrev pub view : {F : Type 0} → Cache F → View F
view c = Quot.mk c

module _ {F Q : Type 0} ⦃f : Float64 F⦄ (as_int64 : Q → ℤ × Bool) where
  step-SameEntries :
      (call : Call F Q) (c c' : Cache F)
      → SlashFree (namespace_of call)
      → SameEntries c c'
      → SameEntries (step as_int64 c call) (step as_int64 c' call)
  step-SameEntries call c c' free same ns sa slash =
      get-step as_int64 c call ns sa slash free
      ∙ rw (same ns sa slash) refl
      ∙ sym (get-step as_int64 c' call ns sa slash free)

  -- A call of the ledger, on the view.
  step_view : (call : Call F Q) → SlashFree (namespace_of call) → View F → View F
  step_view call free =
      Quot.lift Quot-set (λ c. view (step as_int64 c call))
        (λ c c' same. Quot.sound (step-SameEntries call c c' free same))

  -- Only the order of each account's own calls matters: two sequences of calls in which every account
  -- has the same calls in the same order leave the same ledger, as a map, however the calls of
  -- different accounts interleave.
  pub view-run :
      (c : Cache F) (calls calls' : List (Call F Q))
      → NamespacesAreSlashFree calls
      → NamespacesAreSlashFree calls'
      → ((ns sa : Text) → keep (names ns sa) calls ≡ keep (names ns sa) calls')
      → view (run as_int64 c calls) ≡ view (run as_int64 c calls')
  view-run c calls calls' free free' same = Quot.sound (λ ns sa slash.
      get-run as_int64 c calls ns sa slash free
      ∙ ap (effects as_int64 (get c ns sa)) (same ns sa)
      ∙ sym (get-run as_int64 c calls' ns sa slash free'))
