-- ===== src/Webhook/Enforcement.antt =====
-- The budget's promise, through the ledger and the webhook.
use kovern.Prelude.{ℕ, ◌≤◌, ◌≡◌, Bool, true, some, List, ◌⊎◌, inl}
use kovern.Prelude.Int.{ℤ}
use kovern.Prelude.Result.{Result, ok}
use kovern.Float.{Float64, IsIeee}
use kovern.Time.{Time}
use kovern.Ledger.{Cache, Entry, get}
use kovern.Ledger.Keys.{SlashFree}
use kovern.Ledger.Limits.{UsedUp}
use kovern.Ledger.Runs.{Call, NamespacesAreSlashFree, run}
use kovern.Ledger.Exhaustion.{OnlyCharges, run-UsedUp}
use kovern.Cluster.{Pod}
use kovern.Webhook.{Request, create, account, handle}
use kovern.Webhook.Decisions.{is_denied, handle_denies_iff}

module _ {F Q R : Type 0} ⦃f : Float64 F⦄ (laws : IsIeee F) (as_int64 : Q → ℤ × Bool)
    (decode : R → Result Pod) where
  -- Once a service account's positive budget is used up, its pods are refused up to the renewal
  -- time, or for good where none is set: after any calls of the ledger of which those about the
  -- account only record spends that are not negative, whatever the calls about other accounts do.
  pub handle-UsedUp :
      (now : Time) (c : Cache F) (calls : List (Call F Q)) (m : ℕ) {e : Entry F} (req : Request R)
      (pod : Pod)
      → SlashFree req.namespace
      → NamespacesAreSlashFree calls
      → get c req.namespace (account pod) ≡ some e
      → UsedUp m e
      → OnlyCharges req.namespace (account pod) calls
      → req.operation ≡ create
      → decode req.object ≡ ok pod
      → (e.next_renewal ≡ 0) ⊎ (now ≤ e.next_renewal)
      → is_denied (handle decode now (run as_int64 c calls) req) ≡ true
  handle-UsedUp now c calls m {e} req pod h all found u only op decoded current =
      let (e', found', u', same) =
        run-UsedUp laws as_int64 m c calls req.namespace (account pod) h all found u only in
      (handle_denies_iff decode now (run as_int64 c calls) req).1 (
        pod,
        op,
        decoded,
        e',
        found',
        record { current = rw same current; blocking = inl u'.refused },
      )
