-- ===== src/Operator.antt =====
-- cmd/main.go: the operator as its entry point puts it together. The reconciler, the webhook and the
-- receiver share one ledger, and the receiver and the engine one span store. `K` stands for the
-- state of the cluster, and `Q` for the quantities of the API.
pub mod Startup
pub mod Steps
pub mod Evaluations
pub mod Operations
pub mod Requests
pub mod Safety
pub mod Refusals
pub mod Readmissions
pub mod Detections
pub mod Budgets
pub mod Promises
pub mod Events
use kovern.Prelude.{ℕ, Bool, Option, none, some, List}
use kovern.Prelude.Int.{ℤ}
use kovern.Prelude.Text.{Text}
use kovern.Prelude.Result.{Result}
use kovern.Float.{Float64}
use kovern.Time.{Time}
use kovern.Api.{TokenQuota}
use kovern.Ledger
use kovern.Ledger.{Cache}
use kovern.Spans
use kovern.Spans.{SpanStore, trim}
use kovern.Spans.Windows.{ten_minutes}
use kovern.Heuristic
use kovern.Heuristic.{Engine, evaluate}
use kovern.Cluster.{Pod}
use kovern.Cluster.Client.{Client}
use kovern.Pricing.{new_default_estimator}
use kovern.Quota.{Readings, Update, Fetch, Outcome, reconcile}
use kovern.Receiver.{Clock, Handler, HttpRequest, serve}
use kovern.Receiver.Attributes.{TraceRequest}
use kovern.Webhook.{Request, Response, handle}

pub record System (F K : Type 0) : Type 0 where
  pub cluster : K
  pub ledger : Cache F
  pub spans : SpanStore
  pub engine : Engine

abbrev or_same : {F : Type 0} → Cache F → Option (Cache F) → Cache F
or_same c none = c
or_same c (some c') = c'

module _ {F K : Type 0} where
  -- The stores of a process that starts.
  abbrev pub start : K → System F K
  start k = record { cluster = k; ledger = Ledger.new; spans = Spans.new; engine = Heuristic.new }

  -- The system after the receiver has changed the stores that it shares.
  abbrev pub adopt : System F K → Handler F → System F K
  adopt s h = record s { spans = h.store; ledger = or_same s.ledger h.cache }

module _ {F K : Type 0} ⦃f : Float64 F⦄ where
  -- The handler of `/v1/traces`, with the stores of the system.
  abbrev pub handler : System F K → Handler F
  handler s = record {
    store = s.spans;
    cache = some s.ledger;
    cost_estimator = some new_default_estimator;
  }

  -- A request to `/v1/traces`: the status code and the system.
  unfoldable pub receive :
      {B : Type 0}
      → Clock
      → (B → Result (TraceRequest F))
      → HttpRequest B
      → System F K
      → ℕ × System F K
  receive clock decode req s =
      let (code, h) = serve clock decode req (handler s) in (code, adopt s h)

  -- A request to `/validate-v1-pod`.
  abbrev pub review : {R : Type 0} → (R → Result Pod) → Time → Request R → System F K → Response
  review decode now req s = handle decode now s.ledger req

  -- A reconciliation of the quota `namespace/name`; what it sends to the API is in `Reconciled`.
  unfoldable pub reconcile_quota :
      {Q : Type 0}
      → (Q → ℤ × Bool)
      → Readings
      → (ℕ → TokenQuota Q → Update)
      → Text
      → Text
      → Fetch (TokenQuota Q)
      → System F K
      → Outcome × System F K
  reconcile_quota as_int64 r answer namespace name found s =
      let out = reconcile r answer as_int64 s.ledger namespace name found in
      (out.outcome, record s { ledger = out.cache })

  -- One tick of the engine, in which no request comes between its reads of the span store: the trim
  -- at the reading `now`, and the evaluation of all policies with its error, which is only logged.
  unfoldable pub engine_tick :
      {S P : Type 0} → Client K S P → Time → System F K → Option Text × System F K
  engine_tick client now s =
      let spans = trim now s.spans ten_minutes in
      let ((engine, failed), k) = evaluate client (λ _. spans) s.engine s.cluster in
      (failed, record { cluster = k; ledger = s.ledger; spans = spans; engine = engine })
