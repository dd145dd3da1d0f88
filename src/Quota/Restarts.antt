-- ===== src/Quota/Restarts.antt =====
-- The ledger is kept in memory only: what a new process makes of the status that an old one wrote.
use mathlib.Core.Option.{some-injective}
use kovern.Prelude.{
  ℕ, ◌≤◌, ◌≡◌, refl, sym, ap, ◌∙◌, Bool, true, List, Option, some, none, [], ◌∷◌, Option-cases,
  Bool-cases, inl, inr,
}
use kovern.Prelude.Int.{ℤ}
use kovern.Prelude.Text.{Text}
use kovern.Float.{Float64}
use kovern.Time.{Time}
use kovern.Api.{TokenQuota, QuotaState}
use kovern.Ledger
use kovern.Ledger.{
  Cache, Entry, get, check, check_entry, sync, synced, is_set, sync_spec, sync_status, or_fresh,
}
use kovern.Quota.{Readings, Update, fetched, mirrored, mirror, reconcile, Reconciled}
use kovern.Quota.Cycles.{latest}
use kovern.Quota.Renewals.{schedule-mirror, get-after_sync, after_sync_entry}

module _ {F Q : Type 0} ⦃f : Float64 F⦄ (as_int64 : Q → ℤ × Bool) where
  abbrev spec_entry : TokenQuota Q → Entry F → Entry F
  spec_entry tq e = sync_spec as_int64 tq.spec e

  -- The limits of the entry are those of the specification, and its renewal is the status's.
  record Follows (tq : TokenQuota Q) (t : Time) (e : Entry F) : Type 0 where
    budget : e.max_usd ≡ (spec_entry tq e).max_usd
    soft : e.soft_limit_pct ≡ (spec_entry tq e).soft_limit_pct
    action : e.enforcement_action ≡ (spec_entry tq e).enforcement_action
    renewal : e.next_renewal ≡ t

  sync_status-Follows :
      (tq : TokenQuota Q) (t now : Time) (e : Entry F)
      → Follows tq t
          (record (sync_status tq.status (spec_entry tq e)) { next_renewal = t; updated_at = now })
  sync_status-Follows tq t now e = elim (Bool-cases (is_set tq.status.state)) [
    | inl h ↦ rw h record { budget = refl; soft = refl; action = refl; renewal = refl }
    | inr h ↦ rw h record { budget = refl; soft = refl; action = refl; renewal = refl }
  ]

  synced-Follows :
      (now : Time) (tq : TokenQuota Q) (e : Entry F) {t : Time}
      → tq.status.next_renewal ≡ some t
      → Follows tq t (synced as_int64 now tq e)
  unfolding synced
  synced-Follows now tq e {t} set = simp set (sync_status-Follows tq t now e)

  synced-mirrored :
      (u now : Time) (tq : TokenQuota Q) (e e1 : Entry F) {t : Time}
      → tq.status.next_renewal ≡ some t
      → Follows tq t e
      → is_set e.state ≡ true
      → f.parse (f.format6 e.spent_usd) ≡ some e.spent_usd
      → synced as_int64 now (mirrored u e tq) e1 ≡ record e { updated_at = now }
  unfolding synced mirrored
  synced-mirrored u now tq e e1 {t} set fol state exact =
      rw (set, state, exact) (cc (fol.budget, fol.soft, fol.action, fol.renewal))

module _ {F Q : Type 0} ⦃f : Float64 F⦄ (as_int64 : Q → ℤ × Bool) (r : Readings)
    (answer : ℕ → TokenQuota Q → Update) where
  pub mirror-cache :
      (c : Cache F) (ns : Text) (tq : TokenQuota Q) (writes : List (TokenQuota Q))
      → (mirror r answer c ns writes tq).cache ≡ c
  unfolding mirror
  mirror-cache c ns tq writes = elim (Option-cases (get c ns tq.spec.target_ref.name)) [
    | inl e ↦ rw (e, mirror) refl
    | inr (v, e) ↦ rw (e, mirror) refl
  ]

  get-round :
      (c : Cache F) (name : Text) (tq : TokenQuota Q) {t : Time}
      → tq.status.next_renewal ≡ some t
      → r.checked_at ≤ t
      → get
          (reconcile r answer as_int64 c tq.namespace name (fetched tq)).cache
          tq.namespace
          tq.spec.target_ref.name
        ≡ some (after_sync_entry as_int64 r answer c name tq)
  unfolding reconcile
  get-round c name tq set current =
      rw
        (
          schedule-mirror as_int64 r answer c name tq (sync as_int64 r.synced_at c tq)
              tq.status.next_renewal set current,
          mirror-cache (sync as_int64 r.synced_at c tq) tq.namespace tq [],
        )
        (get-after_sync as_int64 r answer c name tq)

  writes-round :
      (c : Cache F) (name : Text) (tq : TokenQuota Q) {t : Time}
      → tq.status.next_renewal ≡ some t
      → r.checked_at ≤ t
      → (reconcile r answer as_int64 c tq.namespace name (fetched tq)).writes
        ≡ mirrored r.updated_at (after_sync_entry as_int64 r answer c name tq) tq ∷ []
  unfolding reconcile mirrored
  writes-round c name tq set current =
      rw
        (schedule-mirror as_int64 r answer c name tq (sync as_int64 r.synced_at c tq)
          tq.status.next_renewal set current)
        (rw (get-after_sync as_int64 r answer c name tq, mirror) refl)

module _ {F Q : Type 0} ⦃f : Float64 F⦄ (as_int64 : Q → ℤ × Bool) (r r' : Readings)
    (answer answer' : ℕ → TokenQuota Q → Update) (c : Cache F) (name : Text)
    (tq : TokenQuota Q) where
  abbrev pub before : Reconciled F Q
  before = reconcile r answer as_int64 c tq.namespace name (fetched tq)

  -- The first reconciliation of a new process, with the object as the last one left it.
  abbrev pub restarted : Reconciled F Q
  restarted =
      reconcile r' answer' as_int64 Ledger.new tq.namespace name (fetched (latest tq before.writes))

  abbrev last : Entry F
  last = after_sync_entry as_int64 r answer c name tq

  restored :
      {t : Time}
      → tq.status.next_renewal ≡ some t
      → r.checked_at ≤ t
      → r'.checked_at ≤ t
      → is_set last.state ≡ true
      → f.parse (f.format6 last.spent_usd) ≡ some last.spent_usd
      → get restarted.cache tq.namespace tq.spec.target_ref.name
        ≡ some (record last { updated_at = r'.synced_at })
  unfolding mirrored
  restored {t} set current current' state exact =
      ap
        (λ (w : TokenQuota Q).
          get (reconcile r' answer' as_int64 Ledger.new tq.namespace name (fetched w)).cache
            tq.namespace tq.spec.target_ref.name)
        (ap (latest tq) (writes-round as_int64 r answer c name tq set current))
      ∙ get-round as_int64 r' answer' Ledger.new name (mirrored r.updated_at last tq) set current'
      ∙ ap some (
          synced-mirrored as_int64 r.updated_at r'.synced_at tq last _ set
            (synced-Follows as_int64 r.synced_at tq _ set) state exact)

  -- A restart of the process loses nothing of an account that the last reconciliation before it has
  -- written to the status: if the entry's spend survives being printed with six decimals, its state is
  -- set, and the renewal time has not passed at either reconciliation, then the first one of the new
  -- process restores the entry, but for the time of its last change, from an empty ledger, and every
  -- admission check of the account answers as before.
  pub get-restarted :
      (now : Time) {t : Time} {e : Entry F}
      → tq.status.next_renewal ≡ some t
      → r.checked_at ≤ t
      → r'.checked_at ≤ t
      → get before.cache tq.namespace tq.spec.target_ref.name ≡ some e
      → is_set e.state ≡ true
      → f.parse (f.format6 e.spent_usd) ≡ some e.spent_usd
      → (get restarted.cache tq.namespace tq.spec.target_ref.name
          ≡ some (record e { updated_at = r'.synced_at }))
        × (check now restarted.cache tq.namespace tq.spec.target_ref.name
            ≡ check now before.cache tq.namespace tq.spec.target_ref.name)
  unfolding check get check_entry
  get-restarted now {t} {e} set current current' found state exact =
      let same =
        some-injective last e (sym (get-round as_int64 r answer c name tq set current) ∙ found) in
      let again =
        restored set current current' (rw same state) (rw same exact)
        ∙ ap (λ (x : Entry F). some (record x { updated_at = r'.synced_at })) same in
      let decide : Option (Entry F) → QuotaState × Option Text = λ o. (check_entry now o, none) in
      (again, ap decide again ∙ sym (ap decide found))
