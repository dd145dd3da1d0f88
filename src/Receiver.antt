-- ===== src/Receiver.antt =====
-- internal/otelreceiver/receiver.go, `Handler`: the receiver of OTLP traces. `B` stands for the body
-- of a request and `decode` for the JSON decoder. The clock's readings while the n-th span of a
-- request is handled are arguments.
pub mod Attributes
pub mod Usage
pub mod Visits
pub mod Calls
pub mod Requests
pub mod Enforcement
pub mod Charges
use kovern.Prelude.{ℕ, suc, ◌||◌, Option, none, some, List, [], ◌∷◌, if◌then◌else◌}
use kovern.Prelude.Int.{ℤ, pos, add64}
use kovern.Prelude.Text.{Text, codes, is_empty}
use kovern.Prelude.Result.{Result, ok, err}
use kovern.Float.{Float64}
use kovern.Time.{Time}
use kovern.Ledger.{Cache, record_spend}
use kovern.Spans.{SpanStore, add_call}
use kovern.Pricing.{Estimator, estimate}
use kovern.Receiver.Attributes.{
  KeyValue, OtlpSpan, ScopeSpans, ResourceSpans, TraceRequest, attr_str, attr_int64,
  extract_tool_name, parse_nano,
}

pub data Method : Type 0 where
  post other_method : Method

pub record HttpRequest (B : Type 0) : Type 0 where
  pub method : Method
  pub body : B

-- The clock's readings while the n-th span of a request is handled: in `parseNano`, and in
-- `RecordSpend`.
pub record Clock : Type 0 where
  pub parsed_at : ℕ → Time
  pub spent_at : ℕ → Time

-- The stores behind the handler. `cache` and `cost_estimator` are optional, as in the code.
pub record Handler (F : Type 0) : Type 0 where
  pub store : SpanStore
  pub cache : Option (Cache F)
  pub cost_estimator : Option (Estimator F)

abbrev or_zero : Option ℤ → ℤ
or_zero none = pos 0
or_zero (some n) = n

abbrev or_unknown : Text → Text
or_unknown model = if is_empty model then codes "unknown" else model

module _ {F : Type 0} ⦃f : Float64 F⦄ where
  -- The cost and the tokens of a span, where it has usage attributes.
  abbrev pub priced : Estimator F → OtlpSpan F → Option ℤ → Option ℤ → Option (F × ℤ)
  priced e span none none = none
  priced e span input output =
      let model = or_unknown (attr_str span.attributes (codes "gen_ai.request.model")) in
      some (
        (estimate e model (or_zero input) (or_zero output)).0,
        add64 (or_zero input) (or_zero output),
      )

  unfoldable pub usage : Estimator F → OtlpSpan F → Option (F × ℤ)
  usage e span =
      priced e span (attr_int64 span.attributes (codes "gen_ai.usage.input_tokens"))
        (attr_int64 span.attributes (codes "gen_ai.usage.output_tokens"))

  abbrev charged : Time → Cache F → Text → Text → Option (F × ℤ) → Cache F
  charged now c namespace service_account none = c
  charged now c namespace service_account (some (usd, tokens)) =
      (record_spend now c namespace service_account usd tokens).0

  -- `recordSpend` on the ledger, where both the ledger and the estimator are there.
  unfoldable pub charge : Time → Cache F → Estimator F → Text → Text → OtlpSpan F → Cache F
  unfolding usage
  charge now c e namespace service_account span =
      if is_empty service_account then c else charged now c namespace service_account (usage e span)

  abbrev charge_if :
      Time → Option (Cache F) → Option (Estimator F) → Text → Text → OtlpSpan F → Option (Cache F)
  charge_if now (some c) (some e) namespace service_account span =
      some (charge now c e namespace service_account span)
  charge_if now c e namespace service_account span = c

  unfoldable pub recorded : Time → SpanStore → Text → Text → OtlpSpan F → SpanStore
  recorded now s namespace pod span =
      let tool = extract_tool_name span in
      if is_empty tool
      then s
      else add_call s namespace pod tool (parse_nano now span.start_time_unix_nano)

  module _ (clock : Clock) where
    -- The body of the loop over the spans, for the n-th span of the request. It counts the span.
    unfoldable pub ingest_span : Text → Text → Text → OtlpSpan F → ℕ × Handler F → ℕ × Handler F
    ingest_span namespace pod service_account span (n, h) = (
      suc n,
      record h {
        store = recorded (clock.parsed_at n) h.store namespace pod span;
        cache =
            charge_if (clock.spent_at n) h.cache h.cost_estimator namespace service_account span;
      },
    )

    unfoldable pub ingest_spans :
        Text → Text → Text → List (OtlpSpan F) → ℕ × Handler F → ℕ × Handler F
    ingest_spans namespace pod service_account [] h = h
    ingest_spans namespace pod service_account (span ∷ spans) h =
        ingest_spans namespace pod service_account spans
          (ingest_span namespace pod service_account span h)

    unfoldable pub ingest_scopes :
        Text → Text → Text → List (ScopeSpans F) → ℕ × Handler F → ℕ × Handler F
    ingest_scopes namespace pod service_account [] h = h
    ingest_scopes namespace pod service_account (ss ∷ scopes) h =
        ingest_scopes namespace pod service_account scopes
          (ingest_spans namespace pod service_account ss.spans h)

    -- The body of the loop over the resources.
    unfoldable pub ingest_resource : ResourceSpans F → ℕ × Handler F → ℕ × Handler F
    ingest_resource rs h =
        let namespace = attr_str rs.resource_attributes (codes "k8s.namespace.name") in
        let pod = attr_str rs.resource_attributes (codes "k8s.pod.name") in
        let service_account = attr_str rs.resource_attributes (codes "k8s.serviceaccount.name") in
        if is_empty namespace || is_empty pod
        then h
        else ingest_scopes namespace pod service_account rs.scope_spans h

    unfoldable pub ingest : List (ResourceSpans F) → ℕ × Handler F → ℕ × Handler F
    ingest [] h = h
    ingest (rs ∷ resources) h = ingest resources (ingest_resource rs h)

    module _ {B : Type 0} (decode : B → Result (TraceRequest F)) where
      abbrev pub serve_decoded : Result (TraceRequest F) → Handler F → ℕ × Handler F
      serve_decoded (err e) h = (400, h)
      serve_decoded (ok req) h = (200, (ingest req.resource_spans (0, h)).1)

      abbrev pub serve_method : Method → B → Handler F → ℕ × Handler F
      serve_method other_method body h = (405, h)
      serve_method post body h = serve_decoded (decode body) h

      -- `ServeHTTP`: the status code, and the handler's stores.
      unfoldable pub serve : HttpRequest B → Handler F → ℕ × Handler F
      serve req h = serve_method req.method req.body h
