-- ===== src/Quota/Cycles.antt =====
-- The reconciler over time: the rounds for one object that the API serves as last written, and whose
-- updates it takes.
use kovern.Prelude.{
  ℕ, ◌≤◌, ◌<◌, ◌≡◌, refl, ap, ◌∙◌, Bool, some, List, [], ◌∷◌, ◌++◌, arith, inl, inr, All, AnyOf,
  AnyOf-left, AnyOf-right, lt_or_ge,
}
use kovern.Prelude.Int.{ℤ, pos}
use kovern.Prelude.Text.{Text, codes}
use kovern.Float.{Float64}
use kovern.Time.{Time}
use kovern.Api.{TokenQuota, active}
use kovern.Ledger.{Cache, sync}
use kovern.Quota.{
  Readings, Update, updated, done, Reconciled, fetched, requeue_after, reconcile, renewed, mirrored,
  mirror,
}
use kovern.Quota.Renewals.{
  schedule-renew, schedule-mirror, get-after_sync, next, after_sync_entry, lt-next_renewal,
}

module _ {Q : Type 0} where
  abbrev pub accept : ℕ → TokenQuota Q → Update
  accept n tq = updated

  -- The object as it stands after the writes.
  abbrev pub latest : TokenQuota Q → List (TokenQuota Q) → TokenQuota Q
  latest tq [] = tq
  latest tq (w ∷ ws) = latest w ws

  -- A status that starts a new period, which ends after the time.
  pub record StartsPeriod (t : Time) (w : TokenQuota Q) : Type 0 where
    pub end : Time
    pub later : t < end
    pub scheduled : w.status.next_renewal ≡ some end
    pub unspent : w.status.spent_usd ≡ codes "0"
    pub no_tokens : w.status.spent_tokens ≡ pos 0
    pub no_runs : w.status.run_count ≡ pos 0
    pub state : w.status.state ≡ active

-- A round that finds the time passed.
abbrev pub Passes : {A : Type 0} → Time → Readings × A → Type 0
Passes t (r, c) = t < r.checked_at

-- The clock does not go back between the check and the new renewal time of a round.
abbrev pub IsOrderly : {A : Type 0} → Readings × A → Type 0
IsOrderly (r, c) = r.checked_at ≤ r.scheduled_at

still_due :
    {A : Type 0} (t : Time) (r : Readings × A) (rs : List (Readings × A))
    → r.0.checked_at ≤ t
    → AnyOf (Passes t) (r ∷ rs)
    → AnyOf (Passes t) rs
still_due t r rs current (inl past) = absurd (omega (arith, current, past))
still_due t r rs current (inr found) = found

module _ {F Q : Type 0} ⦃f : Float64 F⦄ (as_int64 : Q → ℤ × Bool) (name : Text) where
  abbrev pub round : Readings → Cache F → TokenQuota Q → Reconciled F Q
  round r c tq = reconcile r accept as_int64 c tq.namespace name (fetched tq)

  -- The statuses that the rounds send, each from the ledger as it stands by then.
  pub rounds : TokenQuota Q → List (Readings × Cache F) → List (TokenQuota Q)
  rounds tq [] = []
  rounds tq ((r, c) ∷ rs) = let out = round r c tq in out.writes ++ rounds (latest tq out.writes) rs

  round-mirror :
      (r : Readings) (c : Cache F) (tq : TokenQuota Q) {t : Time}
      → tq.status.next_renewal ≡ some t
      → r.checked_at ≤ t
      → round r c tq ≡ record {
        cache = sync as_int64 r.synced_at c tq;
        writes = mirrored r.updated_at (after_sync_entry as_int64 r accept c name tq) tq ∷ [];
        outcome = done (requeue_after r.waited_at (some t));
      }
  unfolding reconcile mirrored
  round-mirror r c tq {t} set current =
      schedule-mirror as_int64 r accept c name tq (sync as_int64 r.synced_at c tq)
        tq.status.next_renewal set current
      ∙ rw (get-after_sync as_int64 r accept c name tq, mirror)
          (ap
            (λ o. record {
              cache = sync as_int64 r.synced_at c tq;
              writes = mirrored r.updated_at (after_sync_entry as_int64 r accept c name tq) tq ∷ [];
              outcome = done (requeue_after r.waited_at o);
            })
            set)

  -- A round past the renewal time starts a new period.
  round-renew :
      (r : Readings) (c : Cache F) (tq : TokenQuota Q) {t : Time}
      → tq.status.next_renewal ≡ some t
      → t < r.checked_at
      → r.checked_at ≤ r.scheduled_at
      → AnyOf (StartsPeriod t) (round r c tq).writes
  unfolding reconcile renewed
  round-renew r c tq {t} set past clock =
      rw
        (schedule-renew as_int64 r accept c name tq (sync as_int64 r.synced_at c tq)
          tq.status.next_renewal set past)
        (inl record {
          end = next as_int64 r accept c name tq;
          later = omega (
            arith,
            past,
            clock,
            lt-next_renewal r.scheduled_at tq.spec.billing_scope.renewal_interval,
          );
          scheduled = refl;
          unspent = refl;
          no_tokens = refl;
          no_runs = refl;
          state = refl;
        })

  -- A round before the renewal time leaves the renewal time alone.
  latest-round :
      (r : Readings) (c : Cache F) (tq : TokenQuota Q) {t : Time}
      → tq.status.next_renewal ≡ some t
      → r.checked_at ≤ t
      → (latest tq (round r c tq).writes).status.next_renewal ≡ some t
  unfolding mirrored
  latest-round r c tq set current =
      ap (λ (o : Reconciled F Q). (latest tq o.writes).status.next_renewal)
        (round-mirror r c tq set current)
      ∙ set

  -- The controller does not miss a renewal: if the API serves the object as last written and takes
  -- every update, the clock does not go back between the check and the new renewal time of a round,
  -- and some round, at whatever times the rounds come and whatever the ledger holds at each, finds the
  -- renewal time passed, then one of the rounds sends a status that starts a new period.
  pub rounds-StartsPeriod :
      (tq : TokenQuota Q) (rs : List (Readings × Cache F)) {t : Time}
      → tq.status.next_renewal ≡ some t
      → All IsOrderly rs
      → AnyOf (Passes t) rs
      → AnyOf (StartsPeriod t) (rounds tq rs)
  unfolding rounds
  rounds-StartsPeriod tq [] set orderly found = absurd found
  rounds-StartsPeriod tq ((r, c) ∷ rs) {t} set (clock, orderly) found =
      elim (lt_or_ge t r.checked_at) [
        | inl past ↦ AnyOf-left (StartsPeriod t) _ _ (round-renew r c tq set past clock)
        | inr current ↦
            let out = round r c tq in
            AnyOf-right (StartsPeriod t) out.writes _ (
              rounds-StartsPeriod (latest tq out.writes) rs (latest-round r c tq set current)
                orderly (still_due t (r, c) rs current found))
      ]
