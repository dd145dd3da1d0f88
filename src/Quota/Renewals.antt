-- ===== src/Quota/Renewals.antt =====
-- The renewal cycle: the next renewal time, the reset of an elapsed period and the requeue times.
use kovern.Prelude.{
  ℕ, ◌+◌, ◌*◌, ◌≤◌, ◌<◌, ◌≡◌, refl, Bool, Option, none, some, [], arith, lt→ltb, ltb_of_le, ◌&&◌,
  if◌then◌else◌,
}
use kovern.Prelude.Int.{ℤ, pos, ◌+ℤ◌}
use kovern.Prelude.Text.{Text, codes, text_eq, text_eq_refl}
use kovern.Float.{Float64}
use kovern.Time.{Time, nano_per_second, add}
use kovern.Time.Calendar.{add_month_bounds, nano_per_day}
use kovern.Api.{TokenQuota, RenewalInterval, active, hourly, daily}
use kovern.Ledger.{Cache, Entry, get, key, synced, or_fresh, sync}
use kovern.Ledger.Lookups.{get-sync, get-remove}
use kovern.Ledger.Keys.{SlashFree, text_eq-key}
use kovern.Quota.{
  Readings, Update, Reconciled, fetched, not_found, next_renewal, schedule, reconcile, renew,
  mirror,
}

abbrev period_min : RenewalInterval → ℕ
period_min hourly = 3600 * nano_per_second
period_min daily = nano_per_day
period_min _ = 28 * nano_per_day

abbrev period_max : RenewalInterval → ℕ
period_max hourly = 3600 * nano_per_second
period_max daily = nano_per_day
period_max _ = 31 * nano_per_day

-- The next renewal is one hour or one day later, or for a monthly or unknown interval 28 to 31 whole
-- days later.
pub next_renewal_bounds :
    (now : Time) (i : RenewalInterval)
    → (now + period_min i ≤ next_renewal now i) × (next_renewal now i ≤ now + period_max i)
unfolding next_renewal add ◌+ℤ◌
next_renewal_bounds now hourly = ground arith
next_renewal_bounds now _ = ground (arith, add_month_bounds now)

pub lt-next_renewal : (now : Time) (i : RenewalInterval) → now < next_renewal now i
lt-next_renewal now hourly = omega (arith, next_renewal_bounds now hourly)
lt-next_renewal now i = omega (arith, next_renewal_bounds now i)

-- The quota with a status that has nothing spent and is due at the time.
pub record Renewed {Q : Type 0} (next : Time) (tq w : TokenQuota Q) : Type 0 where
  pub object : (w.namespace ≡ tq.namespace) × (w.name ≡ tq.name) × (w.spec ≡ tq.spec)
  pub dollars : w.status.spent_usd ≡ codes "0"
  pub tokens : w.status.spent_tokens ≡ pos 0
  pub runs : w.status.run_count ≡ pos 0
  pub state : w.status.state ≡ active
  pub due : w.status.next_renewal ≡ some next
  pub last_updated : w.status.last_updated ≡ tq.status.last_updated

-- The quota with a status that tells what the entry holds, the dollars as a decimal text, and is due
-- as before.
pub record ShowsEntry {F Q : Type 0} ⦃f : Float64 F⦄ (now : Time) (e : Entry F)
    (tq w : TokenQuota Q) : Type 0 where
  pub object : (w.namespace ≡ tq.namespace) × (w.name ≡ tq.name) × (w.spec ≡ tq.spec)
  pub dollars : w.status.spent_usd ≡ f.format6 e.spent_usd
  pub tokens : w.status.spent_tokens ≡ e.spent_tokens
  pub runs : w.status.run_count ≡ e.run_count
  pub state : w.status.state ≡ e.state
  pub due : w.status.next_renewal ≡ tq.status.next_renewal
  pub last_updated : w.status.last_updated ≡ some now

module _ {F Q : Type 0} ⦃f : Float64 F⦄ (as_int64 : Q → ℤ × Bool) (r : Readings)
    (answer : ℕ → TokenQuota Q → Update) (c : Cache F) (name : Text) (tq : TokenQuota Q) where
  abbrev pub after_sync : Cache F
  after_sync = sync as_int64 r.synced_at c tq

  abbrev outcome_of : Reconciled F Q
  outcome_of = reconcile r answer as_int64 c tq.namespace name (fetched tq)

  abbrev pub next : Time
  next = next_renewal r.scheduled_at tq.spec.billing_scope.renewal_interval

  abbrev pub target : Text
  target = tq.spec.target_ref.name

  abbrev pub after_sync_entry : Entry F
  after_sync_entry = synced as_int64 r.synced_at tq (or_fresh (get c tq.namespace target))

  pub get-after_sync : get after_sync tq.namespace target ≡ some after_sync_entry
  get-after_sync =
      rw (get-sync as_int64 r.synced_at c tq tq.namespace target)
        (rw (text_eq_refl (key tq.namespace target)) refl)

  pub schedule-renew :
      (c' : Cache F) (o : Option Time) {t : Time}
      → o ≡ some t
      → t < r.checked_at
      → schedule r answer c' tq.namespace tq o ≡ renew r answer c' tq.namespace tq
  schedule-renew c' none set past = cc
  schedule-renew c' (some u) {t} set past = rw (lt→ltb u r.checked_at (ground arith))

  pub schedule-mirror :
      (c' : Cache F) (o : Option Time) {t : Time}
      → o ≡ some t
      → r.checked_at ≤ t
      → schedule r answer c' tq.namespace tq o ≡ mirror r answer c' tq.namespace [] tq
  schedule-mirror c' none set past = cc
  schedule-mirror c' (some u) {t} set current = rw (ltb_of_le u r.checked_at (ground arith))

module _ {F Q : Type 0} ⦃f : Float64 F⦄ (as_int64 : Q → ℤ × Bool) (r : Readings)
    (answer : ℕ → TokenQuota Q → Update) where
  -- Where the API no longer has the object, the reconciliation removes the entry whose service
  -- account is spelled like the object. Every entry of an account with another name stays as it was,
  -- also the one that the object's `targetRef` named. (No namespace holds a slash.)
  pub reconcile-not_found :
      (c : Cache F) (ns name ns' sa : Text)
      → SlashFree ns
      → SlashFree ns'
      → get (reconcile r answer as_int64 c ns name not_found).cache ns' sa
        ≡ (if text_eq ns ns' && text_eq name sa then none else get c ns' sa)
  unfolding reconcile
  reconcile-not_found c ns name ns' sa h h' =
      rw (get-remove c ns name ns' sa, text_eq-key ns ns' name sa h h') refl
