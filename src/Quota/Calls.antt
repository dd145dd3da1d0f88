-- ===== src/Quota/Calls.antt =====
-- A reconciliation as calls of the ledger.
use kovern.Prelude.{
  ℕ, ◌≡◌, refl, Bool, Option, none, some, List, [], ◌∷◌, if◌then◌else◌, ◌⊎◌, inl, inr, Bool-cases,
}
use kovern.Prelude.Int.{ℤ}
use kovern.Prelude.Text.{Text}
use kovern.Float.{Float64}
use kovern.Time.{Time, after}
use kovern.Api.{TokenQuota}
use kovern.Ledger.{Cache, sync}
use kovern.Ledger.Runs.{Call, syncs, resets, removes, step, run}
use kovern.Quota.{
  Readings, Update, updated, conflict, update_error, Fetch, fetched, not_found, fetch_error,
  reconcile, renew, initialise, initialised, schedule, next_renewal,
}
use kovern.Quota.Restarts.{mirror-cache}

pub Update-cases :
    (u : Update)
    → (u ≡ updated) ⊎ ((e : Text) × (u ≡ conflict e)) ⊎ ((e : Text) × (u ≡ update_error e))
Update-cases updated = inl refl
Update-cases (conflict e) = inr (inl (e, refl))
Update-cases (update_error e) = inr (inr (e, refl))

module _ {F Q : Type 0} ⦃f : Float64 F⦄ (as_int64 : Q → ℤ × Bool) (r : Readings)
    (answer : ℕ → TokenQuota Q → Update) where
  initialise-cache :
      (c : Cache F) (ns : Text) (tq : TokenQuota Q) → (initialise r answer c ns tq).cache ≡ c
  unfolding initialise
  initialise-cache c ns tq =
      let tq' =
        initialised (next_renewal r.scheduled_at tq.spec.billing_scope.renewal_interval) tq in
      elim (Update-cases (answer 0 tq')) [
        | inl e ↦ rw (e, initialise) (mirror-cache as_int64 r answer c ns tq' (tq' ∷ []))
        | inr (inl (x, e)) ↦ rw (e, initialise) refl
        | inr (inr (x, e)) ↦ rw (e, initialise) refl
      ]

module _ {Q : Type 0} (r : Readings) where
  abbrev pub renewal_calls : Text → TokenQuota Q → Option Time → {F : Type 0} → List (Call F Q)
  renewal_calls ns tq none = []
  renewal_calls ns tq (some t) =
      if after r.checked_at t then resets r.reset_at ns tq.spec.target_ref.name ∷ [] else []

  -- The calls of the ledger that a reconciliation makes.
  abbrev pub calls_of : Text → Text → Fetch (TokenQuota Q) → {F : Type 0} → List (Call F Q)
  calls_of ns name not_found = removes ns name ∷ []
  calls_of ns name (fetch_error e) = []
  calls_of ns name (fetched tq) = syncs r.synced_at tq ∷ renewal_calls ns tq tq.status.next_renewal

module _ {F Q : Type 0} ⦃f : Float64 F⦄ (as_int64 : Q → ℤ × Bool) (r : Readings)
    (answer : ℕ → TokenQuota Q → Update) where
  schedule-run :
      (c : Cache F) (ns : Text) (tq : TokenQuota Q) (o : Option Time)
      → (schedule r answer c ns tq o).cache ≡ run as_int64 c (renewal_calls r ns tq o)
  unfolding renew run step
  schedule-run c ns tq none = initialise-cache as_int64 r answer c ns tq
  schedule-run c ns tq (some t) = elim (Bool-cases (after r.checked_at t)) [
    | inl e ↦ rw e refl
    | inr e ↦ rw e (mirror-cache as_int64 r answer c ns tq [])
  ]

  -- On the ledger a reconciliation is these calls, whatever the API answers to its status updates.
  pub reconcile-run :
      (c : Cache F) (ns name : Text) (found : Fetch (TokenQuota Q))
      → (reconcile r answer as_int64 c ns name found).cache
        ≡ run as_int64 c (calls_of r ns name found)
  unfolding reconcile run step
  reconcile-run c ns name not_found = refl
  reconcile-run c ns name (fetch_error e) = refl
  reconcile-run c ns name (fetched tq) =
      schedule-run (sync as_int64 r.synced_at c tq) ns tq tq.status.next_renewal
