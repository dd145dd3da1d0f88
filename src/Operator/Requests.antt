-- ===== src/Operator/Requests.antt =====
-- What a request with traces does to the operator's stores.
use kovern.Prelude.{ℕ, ◌≡◌, ◌∙◌, refl, ap, Bool, List, []}
use kovern.Prelude.Int.{ℤ}
use kovern.Prelude.Result.{Result, ok, err}
use kovern.Float.{Float64}
use kovern.Ledger.Runs.{Call, run}
use kovern.Pricing.{new_default_estimator}
use kovern.Receiver.{Clock, HttpRequest, Method, post, other_method, serve}
use kovern.Receiver.Attributes.{TraceRequest}
use kovern.Receiver.Visits.{Visit, visits, spends_of, stored}
use kovern.Receiver.Requests.{serve_posted, serve_posted-store}
use kovern.Operator.{handler, System, receive}

module _ {F B Q : Type 0} ⦃f : Float64 F⦄ (clock : Clock)
    (decode : B → Result (TraceRequest F)) where
  abbrev spends_decoded : Method → Result (TraceRequest F) → List (Call F Q)
  spends_decoded post (ok tr) = spends_of clock new_default_estimator 0 (visits tr.resource_spans)
  spends_decoded _ _ = []

  -- The spends that a request records; none, unless it is posted and decodes.
  abbrev pub spends_in : HttpRequest B → List (Call F Q)
  spends_in req = spends_decoded req.method (decode req.body)

module _ {F K Q : Type 0} ⦃f : Float64 F⦄ (as_int64 : Q → ℤ × Bool) where
  -- The system after the spans of a request.
  abbrev pub visited : Clock → ℕ → List (Visit F) → System F K → System F K
  visited clock n vs s = record s {
    spans = stored clock n vs s.spans;
    ledger = run as_int64 s.ledger (spends_of clock new_default_estimator n vs);
  }

  module _ {B : Type 0} (clock : Clock) (decode : B → Result (TraceRequest F)) where
    pub receive-visited :
        (req : HttpRequest B) (tr : TraceRequest F) (s : System F K)
        → req.method ≡ post
        → decode req.body ≡ ok tr
        → receive clock decode req s ≡ (200, visited clock 0 (visits tr.resource_spans) s)
    unfolding receive
    receive-visited req tr s posted decoded =
        let store = serve_posted-store clock decode req tr (handler s) posted decoded in
        let (code, _, cache) =
          serve_posted clock as_int64 decode req tr s.spans s.ledger new_default_estimator posted
            decoded in
        cc (code, store, cache)

    -- Whatever a request is, its handling leaves the ledger that its spends leave.
    pub receive-ledger :
        (req : HttpRequest B) (s : System F K)
        → (receive clock decode req s).1.ledger ≡ run as_int64 s.ledger (spends_in clock decode req)
    unfolding receive serve run
    receive-ledger req s = go req.method (decode req.body) refl refl
      where
        go :
            (m : Method) (d : Result (TraceRequest F))
            → req.method ≡ m
            → decode req.body ≡ d
            → (receive clock decode req s).1.ledger
              ≡ run as_int64 s.ledger (spends_in clock decode req)
        go other_method d e _ = rw e refl
        go post (err x) e e' = rw (e, e') refl
        go post (ok tr) e e' =
            ap (λ (o : ℕ × System F K). o.1.ledger) (receive-visited req tr s e e')
            ∙ rw (e, e') refl
