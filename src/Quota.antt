-- ===== src/Quota.antt =====
-- internal/controller/tokenquota_controller.go: the reconciler of TokenQuota objects. The answers of
-- the Kubernetes API are arguments: what `Get` found, and what each status update returned. A
-- reconciliation returns the ledger, the objects whose status it sent to the API, in order, and the
-- requeue time or the error.
pub mod Renewals
pub mod Staleness
pub mod Cycles
pub mod Restarts
pub mod Calls
pub mod Failures
use kovern.Prelude.{
  ℕ, ◌*◌, Bool, true, false, not, ◌&&◌, Option, none, some, List, [], ◌∷◌, ◌++◌, if◌then◌else◌,
}
use kovern.Prelude.Int.{ℤ, pos, ltb_ℤ}
use kovern.Prelude.Text.{Text, codes, is_empty}
use kovern.Float.{Float64}
use kovern.Time
use kovern.Time.{Time, Duration, after, nano_per_second}
use kovern.Time.Calendar.{add_month}
use kovern.Api
use kovern.Api.{
  QuotaState, unset, active, RenewalInterval, hourly, daily, TokenQuota, TokenQuotaStatus,
}
use kovern.Ledger
use kovern.Ledger.{Cache, Entry}

-- What the client's `Get` returned.
pub data Fetch (A : Type 0) : Type 0 where
  fetched : A → Fetch A
  not_found : Fetch A
  fetch_error : Text → Fetch A

-- What a status update returned.
pub data Update : Type 0 where
  updated : Update
  conflict : Text → Update
  update_error : Text → Update

-- The result and error of a reconciliation; a requeue time of 0 is none.
pub data Outcome : Type 0 where
  done : Duration → Outcome
  failed : Text → Outcome

-- The clock's readings, in the order in which one reconciliation may take them.
pub record Readings : Type 0 where
  pub synced_at : Time
  pub checked_at : Time
  pub reset_at : Time
  pub scheduled_at : Time
  pub updated_at : Time
  pub waited_at : Time

pub record Reconciled (F Q : Type 0) : Type 0 where
  pub cache : Cache F
  pub writes : List (TokenQuota Q)
  pub outcome : Outcome

abbrev pub five_minutes : Duration
five_minutes = pos (300 * nano_per_second)

-- `nextRenewal`
unfoldable pub next_renewal : Time → RenewalInterval → Time
next_renewal now hourly = Time.add now (pos (3600 * nano_per_second))
next_renewal now daily = Time.add now (pos (86_400 * nano_per_second))
next_renewal now _ = add_month now

-- `time.Until(t)` at the reading `now`.
abbrev until : Time → Time → Duration
until now t = Time.sub t now

-- The requeue time of a reconciliation that ran to its end.
unfoldable pub requeue_after : Time → Option Time → Duration
requeue_after now none = five_minutes
requeue_after now (some t) =
    let remaining = until now t in
    if ltb_ℤ (pos 0) remaining && ltb_ℤ remaining five_minutes then remaining else five_minutes

abbrev or_active : QuotaState → QuotaState
or_active unset = active
or_active (Api.other_state s) = if is_empty s then active else Api.other_state s
or_active s = s

module _ {Q : Type 0} where
  abbrev pub with_status : TokenQuota Q → TokenQuotaStatus → TokenQuota Q
  with_status tq st = record tq { status = st }

  -- The status that a renewal writes.
  unfoldable pub renewed : Time → TokenQuota Q → TokenQuota Q
  renewed next tq = with_status tq (record tq.status {
    spent_usd = codes "0";
    spent_tokens = pos 0;
    run_count = pos 0;
    state = active;
    next_renewal = some next;
  })

  -- The status that is written where the renewal time was missing.
  unfoldable pub initialised : Time → TokenQuota Q → TokenQuota Q
  initialised next tq =
      with_status tq
        (record tq.status { next_renewal = some next; state = or_active tq.status.state })

-- The outcome of the last status update: a conflict is passed over.
abbrev settle : Duration → Update → Outcome
settle d (update_error x) = failed (codes "status update: " ++ x)
settle d _ = done d

module _ {F Q : Type 0} ⦃f : Float64 F⦄ where
  -- The status that mirrors the ledger's entry.
  unfoldable pub mirrored : Time → Entry F → TokenQuota Q → TokenQuota Q
  mirrored now e tq = with_status tq (record tq.status {
    spent_usd = f.format6 e.spent_usd;
    spent_tokens = e.spent_tokens;
    run_count = e.run_count;
    state = e.state;
    last_updated = some now;
  })

  module _ (r : Readings) (answer : ℕ → TokenQuota Q → Update) where
    -- The branch of an elapsed renewal, from the ledger after `Sync`.
    unfoldable pub renew : Cache F → Text → TokenQuota Q → Reconciled F Q
    renew c namespace tq =
        let c' = Ledger.reset r.reset_at c namespace tq.spec.target_ref.name in
        let next = next_renewal r.scheduled_at tq.spec.billing_scope.renewal_interval in
        let tq' = renewed next tq in
        record {
          cache = c';
          writes = tq' ∷ [];
          outcome = elim (answer 0 tq') [
            | updated ↦ done (until r.waited_at next)
            | conflict e ↦ failed (codes "reset status update: " ++ e)
            | update_error e ↦ failed (codes "reset status update: " ++ e)
          ];
        }

    -- The rest of the reconciliation: the status from the ledger, and the requeue time.
    unfoldable pub mirror : Cache F → Text → List (TokenQuota Q) → TokenQuota Q → Reconciled F Q
    mirror c namespace writes tq = elim (Ledger.get c namespace tq.spec.target_ref.name) [
      | none ↦ record {
        cache = c;
        writes = writes;
        outcome = done (requeue_after r.waited_at tq.status.next_renewal);
      }
      | some e ↦
          let tq' = mirrored r.updated_at e tq in
          record {
            cache = c;
            writes = writes ++ (tq' ∷ []);
            outcome = settle (requeue_after r.waited_at tq'.status.next_renewal) (answer 1 tq');
          }
    ]

    abbrev unwritten : Cache F → TokenQuota Q → Text → Reconciled F Q
    unwritten c tq e = record {
      cache = c;
      writes = tq ∷ [];
      outcome = failed (codes "initial status update: " ++ e);
    }

    -- The initial status update, where the renewal time is missing.
    unfoldable pub initialise : Cache F → Text → TokenQuota Q → Reconciled F Q
    unfolding mirror
    initialise c namespace tq =
        let next = next_renewal r.scheduled_at tq.spec.billing_scope.renewal_interval in
        let tq' = initialised next tq in
        elim (answer 0 tq') [
          | updated ↦ mirror c namespace (tq' ∷ []) tq'
          | conflict e ↦ unwritten c tq' e
          | update_error e ↦ unwritten c tq' e
        ]

    abbrev pub schedule : Cache F → Text → TokenQuota Q → Option Time → Reconciled F Q
    schedule c namespace tq none = initialise c namespace tq
    schedule c namespace tq (some t) =
        if after r.checked_at t then renew c namespace tq else mirror c namespace [] tq

    -- `Reconcile` for the object `namespace/name`.
    unfoldable pub reconcile :
        (Q → ℤ × Bool) → Cache F → Text → Text → Fetch (TokenQuota Q) → Reconciled F Q
    unfolding renew mirror initialise
    reconcile as_int64 c namespace name not_found = record {
      cache = Ledger.remove c namespace name;
      writes = [];
      outcome = done (pos 0);
    }
    reconcile as_int64 c namespace name (fetch_error e) = record {
      cache = c;
      writes = [];
      outcome = failed e;
    }
    reconcile as_int64 c namespace name (fetched tq) =
        schedule (Ledger.sync as_int64 r.synced_at c tq) namespace tq tq.status.next_renewal
