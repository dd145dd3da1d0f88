-- ===== src/Webhook/Decisions.antt =====
-- When the webhook refuses a pod, from the ledger's entries.
use kovern.Prelude.{◌≤◌, ◌≡◌, ◌↔◌, ◌⊎◌, refl, sym, Bool, true, false, Option, none, some, arith}
use mathlib.Core.Path.{subst}
use mathlib.Core.Bool.{false≢true}
use mathlib.Core.Option.{some-injective}
use kovern.Prelude.Text.{Text}
use kovern.Prelude.Result.{Result, ok, err}
use kovern.Time.{Time}
use kovern.Api.{exceeded, suspended}
use kovern.Ledger.{Cache, Entry, get, check, check_entry}
use kovern.Cluster.{Pod}
use kovern.Webhook.{
  Request, Operation, handle_operation, handle_create, Response, allowed, denied, create,
  other_operation, account, respond, handle,
}

abbrev pub is_denied : Response → Bool
is_denied (denied _) = true
is_denied _ = false

abbrev pub is_allowed : Response → Bool
is_allowed (allowed _ _) = true
is_allowed _ = false

-- The entry's renewal is unset or not yet over, and its state is one that blocks.
pub record Blocks {F : Type 0} (now : Time) (e : Entry F) : Type 0 where
  pub current : (e.next_renewal ≡ 0) ⊎ (now ≤ e.next_renewal)
  pub blocking : (e.state ≡ exceeded) ⊎ (e.state ≡ suspended)

module _ {F : Type 0} (now : Time) (ns sa : Text) where
  denied→Blocks :
      (e : Entry F) → is_denied (respond (check_entry now (some e)) ns sa) ≡ true → Blocks now e
  unfolding check_entry
  denied→Blocks e h = record { current = ground arith; blocking = ground arith }

  Blocks→denied :
      (e : Entry F) → Blocks now e → is_denied (respond (check_entry now (some e)) ns sa) ≡ true
  unfolding check_entry
  Blocks→denied e b = ground arith

  denied-check_entry :
      (o : Option (Entry F))
      → (is_denied (respond (check_entry now o) ns sa) ≡ true)
        ↔ ((e : Entry F) × (o ≡ some e) × Blocks now e)
  unfolding check_entry
  denied-check_entry none = (λ h. cc, λ (e, same, b). cc same)
  denied-check_entry (some e) = (
    λ h. (e, refl, denied→Blocks e h),
    λ (e', same, b). Blocks→denied e (subst (Blocks now) (some-injective e' e (sym same)) b),
  )

module _ {F R : Type 0} (decode : R → Result Pod) (now : Time) (c : Cache F) where
  denied_create :
      (ns : Text) (r : Result Pod)
      → is_denied (handle_create decode now c ns r) ≡ true
      → (pod : Pod) × (r ≡ ok pod)
        × (e : Entry F) × (get c ns (account pod) ≡ some e)
        × Blocks now e
  unfolding check get
  denied_create ns (err x) h = absurd (false≢true h)
  denied_create ns (ok pod) h =
      let (e, found, b) = (denied-check_entry now ns (account pod) _).0 h in
      (pod, refl, e, found, b)

  -- A request is refused exactly when it creates a pod that decodes, and the pod's service account,
  -- or `default` where it names none, has a ledger entry whose renewal time is unset or not yet past
  -- and whose state is `Exceeded` or `Suspended`. So other operations, pods that do not decode and
  -- accounts without an entry are never refused.
  pub handle_denies_iff :
      (req : Request R)
      → (is_denied (handle decode now c req) ≡ true) ↔ (
          (pod : Pod) × (req.operation ≡ create)
          × (decode req.object ≡ ok pod)
          × (e : Entry F) × (get c req.namespace (account pod) ≡ some e)
          × Blocks now e)
  unfolding handle check get
  handle_denies_iff req = (
    λ h. go req.operation refl h,
    λ (pod, op, decoded, e, found, b).
        rw (op, decoded) ((denied-check_entry now req.namespace (account pod) _).1 (e, found, b)),
  )
    where
      go :
          (op : Operation)
          → req.operation ≡ op
          → is_denied (handle_operation decode op now c req) ≡ true
          → (pod : Pod) × (req.operation ≡ create)
            × (decode req.object ≡ ok pod)
            × (e : Entry F) × (get c req.namespace (account pod) ≡ some e)
            × Blocks now e
      go other_operation is h = absurd (false≢true h)
      go create is h =
          let (pod, decoded, e, found, b) = denied_create req.namespace (decode req.object) h in
          (pod, is, decoded, e, found, b)
