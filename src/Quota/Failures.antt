-- ===== src/Quota/Failures.antt =====
-- A reconciliation whose status updates fail.
use kovern.Prelude.{
  ℕ, ◌≡◌, refl, Bool, Option, none, some, List, [], ◌∷◌, ◌++◌, inl, inr, Bool-cases, Option-cases,
}
use kovern.Prelude.Int.{ℤ}
use kovern.Prelude.Text.{Text, codes}
use kovern.Float.{Float64}
use kovern.Time.{Time, Duration, after}
use kovern.Api.{TokenQuota}
use kovern.Ledger.{Cache, sync, get}
use kovern.Quota.{
  Readings, Update, updated, conflict, update_error, fetched, Outcome, done, failed, Reconciled,
  reconcile, renew, renewed, mirror, mirrored, initialise, initialised, schedule, next_renewal,
  settle,
}
use kovern.Quota.Calls.{Update-cases}

-- The update's error ends the outcome's.
abbrev pub Reports : Text → Outcome → Type 0
Reports e o = (text : Text) × (o ≡ failed (text ++ e))

module _ {Q : Type 0} (answer : ℕ → TokenQuota Q → Update) where
  -- The last update of a reconciliation, which mirrors the ledger: a conflict is passed over.
  pub data Settled (w : TokenQuota Q) (o : Outcome) : Type 0 where
    taken : (d : Duration) → answer 1 w ≡ updated → o ≡ done d → Settled w o
    passed_over : {e : Text} (d : Duration) → answer 1 w ≡ conflict e → o ≡ done d → Settled w o
    refused : {e : Text} → answer 1 w ≡ update_error e → Reports e o → Settled w o

  -- The status updates that are sent, with their answers, and the outcome. The first one, where there
  -- is one, renews the status or sets its first renewal time.
  pub data Answered : List (TokenQuota Q) → Outcome → Type 0 where
    unsent : (d : Duration) → Answered [] (done d)
    only_first :
        {w : TokenQuota Q} (d : Duration) → answer 0 w ≡ updated → Answered (w ∷ []) (done d)
    conflict_first :
        {w : TokenQuota Q} {o : Outcome} {e : Text}
        → answer 0 w ≡ conflict e
        → Reports e o
        → Answered (w ∷ []) o
    error_first :
        {w : TokenQuota Q} {o : Outcome} {e : Text}
        → answer 0 w ≡ update_error e
        → Reports e o
        → Answered (w ∷ []) o
    only_last : {w : TokenQuota Q} {o : Outcome} → Settled w o → Answered (w ∷ []) o
    both :
        {w w' : TokenQuota Q} {o : Outcome}
        → answer 0 w ≡ updated
        → Settled w' o
        → Answered (w ∷ w' ∷ []) o

  settle-Settled : (d : Duration) (w : TokenQuota Q) → Settled w (settle d (answer 1 w))
  settle-Settled d w = elim (Update-cases (answer 1 w)) [
    | inl e ↦ rw e (taken d e refl)
    | inr (inl (x, e)) ↦ rw e (passed_over d e refl)
    | inr (inr (x, e)) ↦ rw e (refused e (codes "status update: ", refl))
  ]

  module _ {F : Type 0} ⦃f : Float64 F⦄ (r : Readings) where
    abbrev Fine : Reconciled F Q → Type 0
    Fine out = Answered out.writes out.outcome

    renew-Answered : (c : Cache F) (ns : Text) (tq : TokenQuota Q) → Fine (renew r answer c ns tq)
    unfolding renew
    renew-Answered c ns tq =
        let w = renewed (next_renewal r.scheduled_at tq.spec.billing_scope.renewal_interval) tq in
        elim (Update-cases (answer 0 w)) [
          | inl e ↦ rw (e, renew) (only_first _ e)
          | inr (inl (x, e)) ↦
              rw (e, renew) (conflict_first e (codes "reset status update: ", refl))
          | inr (inr (x, e)) ↦ rw (e, renew) (error_first e (codes "reset status update: ", refl))
        ]

    mirror-Answered :
        (c : Cache F) (ns : Text) (tq : TokenQuota Q) → Fine (mirror r answer c ns [] tq)
    unfolding mirror
    mirror-Answered c ns tq = elim (Option-cases (get c ns tq.spec.target_ref.name)) [
      | inl e ↦ rw (e, mirror) (unsent _)
      | inr (v, e) ↦ rw (e, mirror) (only_last (settle-Settled _ (mirrored r.updated_at v tq)))
    ]

    mirror_after-Answered :
        (c : Cache F) (ns : Text) (tq w : TokenQuota Q)
        → answer 0 w ≡ updated
        → Fine (mirror r answer c ns (w ∷ []) tq)
    unfolding mirror
    mirror_after-Answered c ns tq w ok = elim (Option-cases (get c ns tq.spec.target_ref.name)) [
      | inl e ↦ rw (e, mirror) (only_first _ ok)
      | inr (v, e) ↦ rw (e, mirror) (both ok (settle-Settled _ (mirrored r.updated_at v tq)))
    ]

    initialise-Answered :
        (c : Cache F) (ns : Text) (tq : TokenQuota Q) → Fine (initialise r answer c ns tq)
    unfolding initialise
    initialise-Answered c ns tq =
        let w =
          initialised (next_renewal r.scheduled_at tq.spec.billing_scope.renewal_interval) tq in
        elim (Update-cases (answer 0 w)) [
          | inl e ↦ rw (e, initialise) (mirror_after-Answered c ns w w e)
          | inr (inl (x, e)) ↦
              rw (e, initialise) (conflict_first e (codes "initial status update: ", refl))
          | inr (inr (x, e)) ↦
              rw (e, initialise) (error_first e (codes "initial status update: ", refl))
        ]

    schedule-Answered :
        (c : Cache F) (ns : Text) (tq : TokenQuota Q) (o : Option Time)
        → Fine (schedule r answer c ns tq o)
    schedule-Answered c ns tq none = initialise-Answered c ns tq
    schedule-Answered c ns tq (some t) = elim (Bool-cases (after r.checked_at t)) [
      | inl e ↦ rw e (renew-Answered c ns tq)
      | inr e ↦ rw e (mirror-Answered c ns tq)
    ]

    -- A reconciliation of an object that the API has sends at most two status updates. One that is
    -- refused is the last: its error ends the reconciliation's, which the controller retries, but for
    -- a conflict of the update that mirrors the ledger, which is passed over. Where every update is
    -- taken there is no error.
    pub reconcile-Answered :
        (as_int64 : Q → ℤ × Bool) (c : Cache F) (ns name : Text) (tq : TokenQuota Q)
        → let out = reconcile r answer as_int64 c ns name (fetched tq) in
          Answered out.writes out.outcome
    unfolding reconcile
    reconcile-Answered as_int64 c ns name tq =
        schedule-Answered (sync as_int64 r.synced_at c tq) ns tq tq.status.next_renewal
