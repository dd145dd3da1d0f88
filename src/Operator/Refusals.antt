-- ===== src/Operator/Refusals.antt =====
-- A refused pod, after a request with traces.
use kovern.Prelude.{ℕ, ◌≤◌, ◌≡◌, ap, ◌∙◌, refl, Bool, true, some, List, [], ◌∷◌, ◌⊎◌, All}
use kovern.Prelude.Int.{ℤ, pos}
use kovern.Prelude.Text.{Text}
use kovern.Prelude.Result.{Result, ok, err}
use kovern.Float.{Float64, IsIeee}
use kovern.Time.{Time}
use kovern.Ledger.{Entry, get}
use kovern.Ledger.Keys.{SlashFree}
use kovern.Ledger.Limits.{UsedUp}
use kovern.Ledger.Runs.{Call, NamespacesAreSlashFree}
use kovern.Ledger.Exhaustion.{OnlyCharges}
use kovern.Cluster.{Pod}
use kovern.Webhook.{Request, create, account, handle}
use kovern.Webhook.Decisions.{is_denied}
use kovern.Webhook.Enforcement.{handle-UsedUp}
use kovern.Receiver.{Clock, HttpRequest, Method, post, other_method}
use kovern.Receiver.Attributes.{TraceRequest}
use kovern.Receiver.Visits.{visits}
use kovern.Receiver.Calls.{NamesAreSlashFree}
use kovern.Receiver.Charges.{AllCountUp, PlainCharge, spends_of-PlainCharge}
use kovern.Operator.{System, review, receive}
use kovern.Operator.Requests.{spends_in, receive-ledger}

-- No call of the requests converts an amount, so any conversion will do.
abbrev pub any_amount : Unit {0} → ℤ × Bool
any_amount u = (pos 0, true)

module _ {F : Type 0} ⦃f : Float64 F⦄ (laws : IsIeee F) where
  plain-OnlyCharges :
      {Q : Type 0} (ns sa : Text) (calls : List (Call F Q))
      → All (PlainCharge laws) calls
      → NamespacesAreSlashFree calls × OnlyCharges ns sa calls
  plain-OnlyCharges ns sa [] _ = (tt, tt)
  plain-OnlyCharges ns sa (call ∷ calls) ((slash, charge), all) =
      let (slashes, charges) = plain-OnlyCharges ns sa calls all in
      ((slash, slashes), (λ _. charge, charges))

  -- What a request reports is fair: its token counts are not negative, and no namespace holds a
  -- slash.
  abbrev pub IsFair : {B : Type 0} → (B → Result (TraceRequest F)) → HttpRequest B → Type 0
  IsFair decode req =
      (tr : TraceRequest F)
      → decode req.body ≡ ok tr
      → NamesAreSlashFree (visits tr.resource_spans) × AllCountUp (visits tr.resource_spans)

  spends_in-PlainCharge :
      {B : Type 0} (clock : Clock) (decode : B → Result (TraceRequest F)) (req : HttpRequest B)
      → IsFair decode req
      → All (PlainCharge laws) (spends_in {Q = Unit {0}} clock decode req)
  spends_in-PlainCharge clock decode req fair = go req.method (decode req.body) refl refl
    where
      go :
          (m : Method) (d : Result (TraceRequest F))
          → req.method ≡ m
          → decode req.body ≡ d
          → All (PlainCharge laws) (spends_in {Q = Unit {0}} clock decode req)
      go other_method d e _ = rw e tt
      go post (err x) e e' = rw (e, e') tt
      go post (ok tr) e e' =
          let (slashes, ups) = fair tr e' in
          rw (e, e') (spends_of-PlainCharge laws (Unit {0}) clock 0 _ slashes ups)

  -- The spends of a fair request only charge the account.
  pub receive-OnlyCharges :
      {B : Type 0} (clock : Clock) (decode : B → Result (TraceRequest F)) (ns sa : Text)
      (req : HttpRequest B)
      → IsFair decode req
      → let calls = spends_in {Q = Unit {0}} clock decode req in
        NamespacesAreSlashFree calls × OnlyCharges ns sa calls
  receive-OnlyCharges clock decode ns sa req fair =
      plain-OnlyCharges ns sa (spends_in {Q = Unit {0}} clock decode req)
        (spends_in-PlainCharge clock decode req fair)

  -- No trace request buys a refused pod its way in: with the built-in prices, a request whose spans
  -- report no negative token counts leaves the pods of a service account with a used-up budget
  -- refused, up to the renewal time of the account's entry, or for good where none is set. (No
  -- namespace holds a slash.)
  pub review-receive :
      {K R B : Type 0} (decode : R → Result Pod) (clock : Clock)
      (decode_trace : B → Result (TraceRequest F)) (s : System F K) (traces : HttpRequest B)
      (now : Time) (req : Request R) (pod : Pod) (m : ℕ) {e : Entry F}
      → SlashFree req.namespace
      → IsFair decode_trace traces
      → get s.ledger req.namespace (account pod) ≡ some e
      → UsedUp m e
      → req.operation ≡ create
      → decode req.object ≡ ok pod
      → (e.next_renewal ≡ 0) ⊎ (now ≤ e.next_renewal)
      → is_denied (review decode now req (receive clock decode_trace traces s).1) ≡ true
  review-receive decode clock decode_trace s traces now req pod m slash fair found u op decoded
        current =
      let calls = spends_in {Q = Unit {0}} clock decode_trace traces in
      let (slashes, only) =
        receive-OnlyCharges clock decode_trace req.namespace (account pod) traces fair in
      ap (λ c. is_denied (handle decode now c req))
        (receive-ledger any_amount clock decode_trace traces s)
      ∙ handle-UsedUp laws any_amount decode now s.ledger calls m req pod slash slashes found u only
          op decoded current
