-- ===== src/Operator/Budgets.antt =====
-- The budget's promise over the operations of the operator.
use kovern.Prelude.{
  ℕ, ◌<◌, ◌≡◌, refl, sym, ◌∙◌, Bool, true, false, ◌&&◌, Option, some, none, List, [], ◌∷◌, ◌⊎◌, inl,
  inr, Bool-cases, arith,
}
use mathlib.Core.Path.{subst}
use mathlib.Core.Bool.{false≢true}
use kovern.Prelude.Int.{ℤ, pos}
use kovern.Prelude.Text.{Text, text_eq, text_eq_refl}
use kovern.Float.{Float64, IsIeee, ◌≼◌}
use kovern.Time.{Time, after}
use kovern.Api.{TokenQuota, exceeded}
use kovern.Ledger.{Cache, Entry, get, synced, or_fresh}
use kovern.Ledger.Keys.{SlashFree}
use kovern.Ledger.Limits.{UsedUp}
use kovern.Ledger.Runs.{Call, syncs, removes, run, step, effect, get-step, NamespacesAreSlashFree}
use kovern.Ledger.Exhaustion.{OnlyCharges}
use kovern.Quota.{Readings, Fetch, fetched, not_found, fetch_error}
use kovern.Quota.Calls.{calls_of, renewal_calls}
use kovern.Operator.Safety.{Held, run-Held}

both_equal : (a b c d : Text) → a ≡ b → c ≡ d → text_eq a b && text_eq c d ≡ true
both_equal a b c d p q = rw (p, q) (rw (text_eq_refl b, text_eq_refl d) refl)

-- The quota targets another service account.
abbrev pub IsOther : {Q : Type 0} → Text → Text → TokenQuota Q → Type 0
IsOther ns sa tq = text_eq tq.namespace ns && text_eq tq.spec.target_ref.name sa ≡ false

module _ (F : Type 0) {Q : Type 0} ⦃f : Float64 F⦄ (as_int64 : Q → ℤ × Bool) (m : ℕ)
    (until : Time) where
  -- The API serves the quota of the account as one whose budget of `m` dollars is used up, and which
  -- is renewed at the time `until`, not yet passed.
  pub record ServesUsedUp (r : Readings) (tq : TokenQuota Q) : Type 0 where
    pub budget : (as_int64 tq.spec.billing_scope.max_financial_budget).0 ≡ pos m
    pub state : tq.status.state ≡ exceeded
    pub spent : F
    pub parsed : f.parse tq.status.spent_usd ≡ some spent
    pub reached : f.of_int (pos m) ≼ spent
    pub renewal : tq.status.next_renewal ≡ some until
    pub unpassed : after r.checked_at until ≡ false

  -- A reconciliation of the object `ns'/name` is of another account's quota, or finds the budget of
  -- the account used up. An object has the namespace under which it was asked for.
  abbrev pub IsHarmless : Text → Text → Readings → Text → Text → Fetch (TokenQuota Q) → Type 0
  IsHarmless ns sa r ns' name not_found =
      SlashFree ns' × (text_eq ns' ns && text_eq name sa ≡ false)
  IsHarmless ns sa r ns' name (fetch_error e) = Unit
  IsHarmless ns sa r ns' name (fetched tq) =
      SlashFree ns'
      × (tq.namespace ≡ ns')
      × (IsOther ns sa tq
          ⊎ ((tq.namespace ≡ ns) × (tq.spec.target_ref.name ≡ sa) × ServesUsedUp r tq))

module _ {F Q : Type 0} ⦃f : Float64 F⦄ (laws : IsIeee F) (as_int64 : Q → ℤ × Bool) (m : ℕ)
    (until : Time) (positive : 0 < m) (ns sa : Text) (slash : SlashFree ns) where
  synced-UsedUp :
      (r : Readings) (tq : TokenQuota Q) (e : Entry F)
      → ServesUsedUp F as_int64 m until r tq
      → UsedUp m (synced as_int64 r.synced_at tq e)
        × ((synced as_int64 r.synced_at tq e).next_renewal ≡ until)
  unfolding synced
  synced-UsedUp r tq e u = (
    record {
      positive = positive;
      budget = ground arith;
      spent = ground arith;
      refused = ground arith;
    },
    ground arith,
  )

  own-Held :
      (r : Readings) (c : Cache F) (tq : TokenQuota Q) (ns' : Text) (o : Option Time)
      → tq.namespace ≡ ns
      → tq.spec.target_ref.name ≡ sa
      → ServesUsedUp F as_int64 m until r tq
      → o ≡ some until
      → Held m ns sa until (run as_int64 c (syncs r.synced_at tq ∷ renewal_calls r ns' tq o))
  unfolding run step effect
  own-Held r c tq ns' o same_ns same_sa u is =
      let e = or_fresh (get c ns sa) in
      let (used, same) = synced-UsedUp r tq e u in
      let call : Call F Q = syncs r.synced_at tq in
      let named = both_equal tq.namespace ns tq.spec.target_ref.name sa same_ns same_sa in
      let changed = get-step as_int64 c call ns sa slash (subst SlashFree (sym same_ns) slash) in
      rw (is, u.unpassed)
        record {
          entry = synced as_int64 r.synced_at tq e;
          found = changed ∙ rw named refl;
          used_up = used;
          same = same;
        }

  others-OnlyCharges :
      (r : Readings) (tq : TokenQuota Q) (ns' : Text) (o : Option Time)
      → SlashFree ns'
      → tq.namespace ≡ ns'
      → IsOther ns sa tq
      → let calls : List (Call F Q) = renewal_calls r ns' tq o in
        NamespacesAreSlashFree calls × OnlyCharges ns sa calls
  others-OnlyCharges r tq ns' none free at other = (tt, tt)
  others-OnlyCharges r tq ns' (some t) free at other =
      let reset =
        subst (λ n. text_eq n ns && text_eq tq.spec.target_ref.name sa ≡ false) at other in
      elim (Bool-cases (after r.checked_at t)) [
        | inl e ↦ rw e ((free, tt), (λ h. absurd (false≢true (sym reset ∙ h)), tt))
        | inr e ↦ rw e (tt, tt)
      ]

  pub reconcile-Held :
      (r : Readings) (c : Cache F) (ns' name : Text) (found : Fetch (TokenQuota Q))
      → IsHarmless F as_int64 m until ns sa r ns' name found
      → Held m ns sa until c
      → Held m ns sa until (run as_int64 c (calls_of r ns' name found))
  unfolding run
  reconcile-Held r c ns' name (fetch_error e) _ h = h
  reconcile-Held r c ns' name not_found (free, other) held =
      run-Held laws as_int64 m ns sa slash c (removes ns' name ∷ []) (free, tt)
        (λ h. absurd (false≢true (sym other ∙ h)), tt) held
  reconcile-Held r c ns' name (fetched tq) (free, at, inl other) held =
      let (frees, charges) = others-OnlyCharges r tq ns' tq.status.next_renewal free at other in
      run-Held laws as_int64 m ns sa slash c (calls_of r ns' name (fetched tq))
        (subst SlashFree (sym at) free, frees) (λ h. absurd (false≢true (sym other ∙ h)), charges)
        held
  reconcile-Held r c ns' name (fetched tq) (free, at, inr (same_ns, same_sa, u)) h =
      own-Held r c tq ns' tq.status.next_renewal same_ns same_sa u u.renewal
