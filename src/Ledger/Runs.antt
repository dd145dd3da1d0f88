-- ===== src/Ledger/Runs.antt =====
-- Any sequence of calls of the ledger's methods, against a specification in which each service
-- account has an entry of its own that no other account's calls touch.
use mathlib.Core.Option
use kovern.Prelude.{
  ◌≡◌, refl, Bool, ◌&&◌, Option, none, some, List, [], ◌∷◌, if◌then◌else◌, keep, All, Bool-cases,
  inl, inr,
}
use kovern.Prelude.Int.{ℤ}
use kovern.Prelude.Text.{Text, text_eq}
use kovern.Float.{Float64}
use kovern.Time.{Time}
use kovern.Api.{TokenQuota}
use kovern.Ledger.{
  Cache, Entry, get, spend, record_spend, cleared, reset, remove, synced, sync, or_fresh,
}
use kovern.Ledger.Keys.{SlashFree, if_key}
use kovern.Ledger.Lookups.{get-record_spend, get-reset, get-remove, get-sync}

-- The calls that change the ledger, each with the clock's reading.
pub data Call (F Q : Type 0) : Type 0 where
  syncs : Time → TokenQuota Q → Call F Q
  spends : Time → Text → Text → F → ℤ → Call F Q
  resets : Time → Text → Text → Call F Q
  removes : Text → Text → Call F Q

module _ {F Q : Type 0} where
  abbrev pub namespace_of : Call F Q → Text
  namespace_of (syncs now tq) = tq.namespace
  namespace_of (spends now ns sa usd tokens) = ns
  namespace_of (resets now ns sa) = ns
  namespace_of (removes ns sa) = ns

  abbrev pub account_of : Call F Q → Text
  account_of (syncs now tq) = tq.spec.target_ref.name
  account_of (spends now ns sa usd tokens) = sa
  account_of (resets now ns sa) = sa
  account_of (removes ns sa) = sa

  -- The call is about the service account `sa` of the namespace `ns`.
  abbrev pub names : Text → Text → Call F Q → Bool
  names ns sa call = text_eq (namespace_of call) ns && text_eq (account_of call) sa

  abbrev pub NamespacesAreSlashFree : List (Call F Q) → Type 0
  NamespacesAreSlashFree = All (λ call. SlashFree (namespace_of call))

module _ {F Q : Type 0} ⦃f : Float64 F⦄ (as_int64 : Q → ℤ × Bool) where
  unfoldable pub step : Cache F → Call F Q → Cache F
  step c (syncs now tq) = sync as_int64 now c tq
  step c (spends now ns sa usd tokens) = (record_spend now c ns sa usd tokens).0
  step c (resets now ns sa) = reset now c ns sa
  step c (removes ns sa) = remove c ns sa

  unfoldable pub run : Cache F → List (Call F Q) → Cache F
  unfolding step
  run c [] = c
  run c (call ∷ calls) = run (step c call) calls

  -- What a call does to the one entry that it names.
  unfoldable pub effect : Option (Entry F) → Call F Q → Option (Entry F)
  effect o (syncs now tq) = some (synced as_int64 now tq (or_fresh o))
  effect o (spends now ns sa usd tokens) = Option.map (spend now usd tokens) o
  effect o (resets now ns sa) = Option.map (cleared now) o
  effect o (removes ns sa) = none

  unfoldable pub effects : Option (Entry F) → List (Call F Q) → Option (Entry F)
  unfolding effect
  effects o [] = o
  effects o (call ∷ calls) = effects (effect o call) calls

  -- One call changes the entry of the account that it names and no other.
  pub get-step :
      (c : Cache F) (call : Call F Q) (ns sa : Text)
      → SlashFree ns
      → SlashFree (namespace_of call)
      → get (step c call) ns sa
        ≡ (if names ns sa call then effect (get c ns sa) call else get c ns sa)
  unfolding step effect
  get-step c (syncs now tq) ns sa h h' =
      rw (get-sync as_int64 now c tq ns sa)
        (if_key (get c) (λ o. some (synced as_int64 now tq (or_fresh o))) _ _ _ _ _ h' h)
  get-step c (spends now ns' sa' usd tokens) ns sa h h' =
      rw (get-record_spend now c ns' sa' ns sa usd tokens)
        (if_key (get c) (Option.map (spend now usd tokens)) _ _ _ _ _ h' h)
  get-step c (resets now ns' sa') ns sa h h' =
      rw (get-reset now c ns' sa' ns sa) (if_key (get c) (Option.map (cleared now)) _ _ _ _ _ h' h)
  get-step c (removes ns' sa') ns sa h h' =
      rw (get-remove c ns' sa' ns sa) (if_key (get c) (λ _. none) _ _ _ _ _ h' h)

  -- After any calls the entry of an account is what the calls that name it make of it, in their
  -- order: accounts do not interfere, and lookups read the last write.
  pub get-run :
      (c : Cache F) (calls : List (Call F Q)) (ns sa : Text)
      → SlashFree ns
      → NamespacesAreSlashFree calls
      → get (run c calls) ns sa ≡ effects (get c ns sa) (keep (names ns sa) calls)
  unfolding run effects
  get-run c [] ns sa h all = refl
  get-run c (call ∷ calls) ns sa h (first, rest) = elim (Bool-cases (names ns sa call)) [
    | inl e ↦ rw (get-run (step c call) calls ns sa h rest, get-step c call ns sa h first, e)
    | inr e ↦ rw (get-run (step c call) calls ns sa h rest, get-step c call ns sa h first, e)
  ]
