-- ===== src/Webhook/Views.antt =====
-- The webhook on the ledger as a map.
use mathlib.Core.Quot
use mathlib.Core.Bool.{Bool-set}
use kovern.Prelude.{◌≡◌, refl, none, ap, Bool, List, keep}
use kovern.Prelude.Int.{ℤ}
use kovern.Prelude.Text.{Text}
use kovern.Prelude.Result.{Result, ok, err}
use kovern.Float.{Float64}
use kovern.Time.{Time}
use kovern.Ledger.{Cache, get, check, check_entry}
use kovern.Ledger.Keys.{SlashFree}
use kovern.Ledger.Runs.{Call, names, NamespacesAreSlashFree, run}
use kovern.Ledger.Views.{SameEntries, View, view, view-run}
use kovern.Cluster.{Pod}
use kovern.Webhook.{
  Request, Operation, create, other_operation, account, handle, handle_operation, handle_create,
  answer,
}
use kovern.Webhook.Decisions.{is_denied}

module _ {F R : Type 0} (decode : R → Result Pod) (now : Time) where
  handle_create-SameEntries :
      (c c' : Cache F) (ns : Text) (d : Result Pod)
      → SlashFree ns
      → SameEntries c c'
      → handle_create decode now c ns d ≡ handle_create decode now c' ns d
  unfolding check get
  handle_create-SameEntries c c' ns (err e) slash same = refl
  handle_create-SameEntries c c' ns (ok pod) slash same =
      ap (λ o. answer (check_entry now o, none) ns (account pod)) (same ns (account pod) slash)

  handle-SameEntries :
      (req : Request R) (c c' : Cache F)
      → SlashFree req.namespace
      → SameEntries c c'
      → handle decode now c req ≡ handle decode now c' req
  unfolding handle
  handle-SameEntries req c c' slash same = go req.operation
    where
      go :
          (o : Operation)
          → handle_operation decode o now c req ≡ handle_operation decode o now c' req
      go create = handle_create-SameEntries c c' req.namespace (decode req.object) slash same
      go other_operation = refl

  -- Whether the webhook refuses a request, as a function of the view.
  denied_on : (req : Request R) → SlashFree req.namespace → View F → Bool
  denied_on req slash =
      Quot.lift Bool-set (λ c. is_denied (handle decode now c req))
        (λ c c' same. ap is_denied (handle-SameEntries req c c' slash same))

  -- The webhook's answer does not depend on how the calls of different accounts interleave: after two
  -- sequences of calls of the ledger in which every account has the same calls in the same order, the
  -- ledgers are the same map and the webhook refuses the same requests. (No namespace holds a slash.)
  pub handle-view-run :
      {Q : Type 0} ⦃f : Float64 F⦄ (as_int64 : Q → ℤ × Bool) (c : Cache F)
      (calls calls' : List (Call F Q)) (req : Request R)
      → SlashFree req.namespace
      → NamespacesAreSlashFree calls
      → NamespacesAreSlashFree calls'
      → ((ns sa : Text) → keep (names ns sa) calls ≡ keep (names ns sa) calls')
      → (view (run as_int64 c calls) ≡ view (run as_int64 c calls'))
        × (is_denied (handle decode now (run as_int64 c calls) req)
            ≡ is_denied (handle decode now (run as_int64 c calls') req))
  unfolding denied_on
  handle-view-run as_int64 c calls calls' req slash free free' same =
      let one_view = view-run as_int64 c calls calls' free free' same in
      (one_view, ap (denied_on req slash) one_view)
