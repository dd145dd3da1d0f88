-- ===== src/Receiver/Enforcement.antt =====
-- A request with traces, and then a pod's admission.
use mathlib.Core.Option.{some-injective}
use mathlib.Core.Path.{subst}
use kovern.Prelude.{ℕ, ◌≤◌, ◌≡◌, ◌∙◌, sym, Bool, true, some, ◌⊎◌}
use kovern.Prelude.Int.{ℤ}
use kovern.Prelude.Result.{Result, ok}
use kovern.Float.{Float64, IsIeee}
use kovern.Time.{Time}
use kovern.Ledger.{Cache, Entry, get}
use kovern.Ledger.Keys.{SlashFree}
use kovern.Ledger.Limits.{UsedUp}
use kovern.Ledger.Runs.{NamespacesAreSlashFree}
use kovern.Ledger.Exhaustion.{OnlyCharges}
use kovern.Spans.{SpanStore}
use kovern.Pricing.{Estimator}
use kovern.Cluster.{Pod}
use kovern.Webhook.{Request, create, account, handle}
use kovern.Webhook.Decisions.{is_denied}
use kovern.Webhook.Enforcement.{handle-UsedUp}
use kovern.Receiver.{Clock, HttpRequest, post, serve}
use kovern.Receiver.Attributes.{TraceRequest}
use kovern.Receiver.Visits.{visits, spends_of}
use kovern.Receiver.Requests.{serve_posted}

module _ {F B R Q : Type 0} ⦃f : Float64 F⦄ (laws : IsIeee F) (as_int64 : Q → ℤ × Bool)
    (clock : Clock) (decode_trace : B → Result (TraceRequest F)) (decode_pod : R → Result Pod) where
  -- A request with traces does not lift a refusal: if the budget of a pod's service account is used
  -- up and the spends that the request records for it are not negative, the webhook refuses the pod
  -- after the request, up to the renewal time of the account's entry, or for good where none is set.
  serve-handle :
      (req : HttpRequest B) (tr : TraceRequest F) (s : SpanStore) (c c' : Cache F) (e : Estimator F)
      (m : ℕ) {entry : Entry F} (now : Time) (review : Request R) (pod : Pod)
      → req.method ≡ post
      → decode_trace req.body ≡ ok tr
      → (serve clock decode_trace req
          (record { store = s; cache = some c; cost_estimator = some e })).1.cache
        ≡ some c'
      → SlashFree review.namespace
      → NamespacesAreSlashFree {Q = Q} (spends_of clock e 0 (visits tr.resource_spans))
      → get c review.namespace (account pod) ≡ some entry
      → UsedUp m entry
      → OnlyCharges {Q = Q} review.namespace
          (account pod)
          (spends_of clock e 0 (visits tr.resource_spans))
      → review.operation ≡ create
      → decode_pod review.object ≡ ok pod
      → (entry.next_renewal ≡ 0) ⊎ (now ≤ entry.next_renewal)
      → is_denied (handle decode_pod now c' review) ≡ true
  serve-handle req tr s c c' e m now review pod posted decoded left h all found u only op is
        current =
      let (_, _, cache) = serve_posted clock as_int64 decode_trace req tr s c e posted decoded in
      let same = some-injective _ _ (sym cache ∙ left) in
      subst (λ x. is_denied (handle decode_pod now x review) ≡ true) same
        (handle-UsedUp laws as_int64 decode_pod now c
          (spends_of clock e 0 (visits tr.resource_spans)) m review pod h all found u only op is
          current)
