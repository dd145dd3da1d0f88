-- ===== src/Operator/Readmissions.antt =====
-- A refused pod, after its account's renewal.
use kovern.Prelude.{ℕ, ◌<◌, ◌≡◌, ◌∙◌, refl, Bool, false, some, Bool-cases, inl, inr}
use kovern.Prelude.Int.{ℤ}
use kovern.Prelude.Text.{Text, text_eq_refl}
use kovern.Prelude.Result.{Result, ok}
use kovern.Float.{Float64}
use kovern.Time.{Time}
use kovern.Api.{TokenQuota, active}
use kovern.Ledger.{Entry, Cache, key, get, sync, cleared, synced, or_fresh}
use kovern.Ledger.Lookups.{get-reset}
use kovern.Cluster.{Pod}
use kovern.Quota.{Readings, Update, fetched, reconcile, renew}
use kovern.Quota.Renewals.{schedule-renew, get-after_sync}
use kovern.Webhook.{Request, account, handle}
use kovern.Webhook.Decisions.{is_denied, handle_denies_iff}
use kovern.Operator.{System, review, reconcile_quota}

module _ {F Q : Type 0} ⦃f : Float64 F⦄ (as_int64 : Q → ℤ × Bool) (r : Readings)
    (answer : ℕ → TokenQuota Q → Update) (c : Cache F) (name : Text) (tq : TokenQuota Q) where
  -- The entry that a reconciliation past the renewal time leaves, whatever the API answers.
  abbrev renewed_entry : Entry F
  renewed_entry =
      cleared r.reset_at
        (synced as_int64 r.synced_at tq (or_fresh (get c tq.namespace tq.spec.target_ref.name)))

  get-past_renewal :
      {t : Time}
      → tq.status.next_renewal ≡ some t
      → t < r.checked_at
      → get
          (reconcile r answer as_int64 c tq.namespace name (fetched tq)).cache
          tq.namespace
          tq.spec.target_ref.name
        ≡ some renewed_entry
  unfolding reconcile renew
  get-past_renewal set past =
      let ns = tq.namespace in
      let sa = tq.spec.target_ref.name in
      let c' = sync as_int64 r.synced_at c tq in
      rw (schedule-renew as_int64 r answer c name tq c' tq.status.next_renewal set past) (
        get-reset r.reset_at c' ns sa ns sa
        ∙ rw (text_eq_refl (key ns sa), get-after_sync as_int64 r answer c name tq) refl)

module _ {F K Q R : Type 0} ⦃f : Float64 F⦄ (as_int64 : Q → ℤ × Bool)
    (decode : R → Result Pod) where
  -- A refusal ends with the renewal: in the state that a reconciliation leaves which found the renewal
  -- time of a quota passed, the webhook refuses no pod of the quota's service account, whatever the
  -- ledger held before, whatever the API answers to the status update, and whenever the pod comes.
  pub review-reconcile_quota :
      (r : Readings) (answer : ℕ → TokenQuota Q → Update) (name : Text) (tq : TokenQuota Q)
      (s : System F K) (now : Time) (req : Request R) (pod : Pod) {t : Time}
      → tq.status.next_renewal ≡ some t
      → t < r.checked_at
      → decode req.object ≡ ok pod
      → req.namespace ≡ tq.namespace
      → account pod ≡ tq.spec.target_ref.name
      → is_denied (
          review decode now req
            (reconcile_quota as_int64 r answer tq.namespace name (fetched tq) s).1)
        ≡ false
  unfolding reconcile_quota cleared
  review-reconcile_quota r answer name tq s now req pod {t} set past decoded ns sa =
      let c' = (reconcile r answer as_int64 s.ledger tq.namespace name (fetched tq)).cache in
      elim (Bool-cases (is_denied (handle decode now c' req))) [
        | inr allowed ↦ allowed
        | inl denied ↦
            let (pod', _, decoded', e, found, b) = (handle_denies_iff decode now c' req).0 denied in
            let at = get-past_renewal as_int64 r answer s.ledger name tq set past in
            let left = renewed_entry as_int64 r answer s.ledger name tq in
            let is_active : left.state ≡ active = refl in
            elim b.blocking [
              | inl x ↦ cc (found, at, ns, sa, decoded, decoded', x, is_active)
              | inr x ↦ cc (found, at, ns, sa, decoded, decoded', x, is_active)
            ]
      ]
