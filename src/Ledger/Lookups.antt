-- ===== src/Ledger/Lookups.antt =====
-- What `Get` returns after each method of the ledger.
use mathlib.Core.Option
use kovern.Prelude.{◌≡◌, refl, Bool, none, some, arith, if◌then◌else◌, inl, inr, Option-cases}
use kovern.Prelude.Int.{ℤ}
use kovern.Prelude.Text.{Text, text_eq, text_eq→eq}
use kovern.Prelude.Dict.{lookup-insert, lookup-delete, lookup}
use kovern.Float.{Float64}
use kovern.Time.{Time}
use kovern.Api.{TokenQuota}
use kovern.Ledger.{
  Cache, key, get, spend, record_spend, cleared, reset, remove, synced, sync, or_fresh,
}

module _ {F : Type 0} ⦃f : Float64 F⦄ (now : Time) (c : Cache F) (ns sa ns' sa' : Text) where
  pub get-record_spend :
      (usd : F) (tokens : ℤ)
      → get (record_spend now c ns sa usd tokens).0 ns' sa' ≡ (
          if text_eq (key ns sa) (key ns' sa')
          then Option.map (spend now usd tokens) (get c ns sa)
          else get c ns' sa')
  unfolding get record_spend
  get-record_spend usd tokens = elim (Option-cases (lookup (key ns sa) c.entries)) [
    | inl e ↦ rw (e, record_spend) (ground (arith, text_eq→eq (key ns sa) (key ns' sa')))
    | inr (v, e) ↦ rw (e, record_spend) (rw lookup-insert refl)
  ]

  pub get-reset : get (reset now c ns sa) ns' sa' ≡ (
      if text_eq (key ns sa) (key ns' sa')
      then Option.map (cleared now) (get c ns sa)
      else get c ns' sa')
  unfolding get reset
  get-reset = elim (Option-cases (lookup (key ns sa) c.entries)) [
    | inl e ↦ rw (e, reset) (ground (arith, text_eq→eq (key ns sa) (key ns' sa')))
    | inr (v, e) ↦ rw (e, reset) (rw lookup-insert refl)
  ]

module _ {F : Type 0} (c : Cache F) (ns sa ns' sa' : Text) where
  pub get-remove :
      get (remove c ns sa) ns' sa'
      ≡ (if text_eq (key ns sa) (key ns' sa') then none else get c ns' sa')
  unfolding get remove
  get-remove = rw lookup-delete refl

module _ {F Q : Type 0} ⦃f : Float64 F⦄ (as_int64 : Q → ℤ × Bool) where
  pub get-sync :
      (now : Time) (c : Cache F) (tq : TokenQuota Q) (ns sa : Text)
      → let ns' = tq.namespace in
        let sa' = tq.spec.target_ref.name in
        get (sync as_int64 now c tq) ns sa ≡ (
          if text_eq (key ns' sa') (key ns sa)
          then some (synced as_int64 now tq (or_fresh (get c ns' sa')))
          else get c ns sa)
  unfolding get sync
  get-sync now c tq ns sa = rw lookup-insert refl
