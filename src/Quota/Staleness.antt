-- ===== src/Quota/Staleness.antt =====
-- What a reconciliation makes of the spend that the ledger recorded since the last status update.
use kovern.Prelude.{ℕ, ◌≡◌, ap, Bool, true, some, inl, inr, Option-cases}
use kovern.Prelude.Int.{ℤ}
use kovern.Prelude.Text.{Text}
use kovern.Prelude.Dict.{lookup, insert-insert, lookup-insert_self}
use kovern.Float.{Float64}
use kovern.Time.{Time}
use kovern.Api.{TokenQuota}
use kovern.Ledger.{Cache, Entry, key, spend, synced, sync, record_spend, is_set}
use kovern.Quota.{Readings, Update, fetched, schedule, reconcile}

module _ {F Q : Type 0} ⦃f : Float64 F⦄ (as_int64 : Q → ℤ × Bool) (tq : TokenQuota Q)
    (set : is_set tq.status.state ≡ true) {x : F}
    (parsed : f.parse tq.status.spent_usd ≡ some x) where
  synced-spend :
      (now now' : Time) (usd : F) (tokens : ℤ) (e : Entry F)
      → synced as_int64 now tq (spend now' usd tokens e) ≡ synced as_int64 now tq e
  unfolding synced spend
  synced-spend now now' usd tokens e = elim (Option-cases tq.status.next_renewal) [
    | inl n ↦ rw (set, parsed, n)
    | inr (t, n) ↦ rw (set, parsed, n)
  ]

  sync-record_spend :
      (now now' : Time) (c : Cache F) (usd : F) (tokens : ℤ)
      → sync as_int64 now (record_spend now' c tq.namespace tq.spec.target_ref.name usd tokens).0 tq
        ≡ sync as_int64 now c tq
  unfolding sync record_spend
  sync-record_spend now now' c usd tokens =
      let k = key tq.namespace tq.spec.target_ref.name in
      elim (Option-cases (lookup k c.entries)) [
        | inl e ↦ rw (e, record_spend) (rw e)
        | inr (v, e) ↦
            rw (e, record_spend)
              (rw (lookup-insert_self, synced-spend now now' usd tokens v, insert-insert))
      ]

  -- If the object's status has a state and a spend that parses, a reconciliation is the same, in the
  -- ledger that it leaves, in every status that it sends and in its outcome, whether or not a spend
  -- of the object's service account was recorded before it: what the ledger recorded since the status
  -- was last written is dropped, and never reaches the status.
  pub reconcile-record_spend :
      (r : Readings) (answer : ℕ → TokenQuota Q → Update) (name : Text) (c : Cache F) (now' : Time)
      (usd : F) (tokens : ℤ)
      → reconcile r answer as_int64
          (record_spend now' c tq.namespace tq.spec.target_ref.name usd tokens).0
          tq.namespace
          name
          (fetched tq)
        ≡ reconcile r answer as_int64 c tq.namespace name (fetched tq)
  unfolding reconcile
  reconcile-record_spend r answer name c now' usd tokens =
      ap (λ c'. schedule r answer c' tq.namespace tq tq.status.next_renewal)
        (sync-record_spend r.synced_at now' c usd tokens)
