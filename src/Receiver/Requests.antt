-- ===== src/Receiver/Requests.antt =====
-- What one request does to the span store and to the ledger, span by span.
use kovern.Prelude.{ℕ, ◌≡◌, ◌≢◌, ◌∙◌, sym, refl, ap, Bool, some, suc, List, [], ◌∷◌, if◌then◌else◌}
use kovern.Prelude.Text.{Text, is_empty}
use kovern.Time.{Time}
use kovern.Prelude.Int.{ℤ}
use kovern.Prelude.Result.{Result, ok, err}
use kovern.Float.{Float64}
use kovern.Ledger.{Cache}
use kovern.Ledger.Runs.{run}
use kovern.Spans.{SpanStore, add_call}
use kovern.Pricing.{Estimator}
use kovern.Receiver.Attributes.{TraceRequest, extract_tool_name, parse_nano}
use kovern.Receiver.{
  Clock, Handler, HttpRequest, Method, post, other_method, serve, serve_decoded, serve_method,
  recorded,
}
use kovern.Receiver.Visits.{
  Visit, visits, stored, spends_of, ingest-visit_all, visit_all-store, visit_all-cache,
}

module _ {F : Type 0} ⦃f : Float64 F⦄ (clock : Clock) where
  -- A call of the tool of a span, if the span names one, at its start time.
  abbrev with_call : Text → Time → Visit F → SpanStore → SpanStore
  with_call [] start v s = s
  with_call (c ∷ tool) start v s = add_call s v.namespace v.pod (c ∷ tool) start

  -- The store after one call for each span from the n-th on that names a tool.
  abbrev pub calls_added : ℕ → List (Visit F) → SpanStore → SpanStore
  calls_added n [] s = s
  calls_added n (v ∷ vs) s = calls_added (suc n) vs (
      with_call (extract_tool_name v.span)
        (parse_nano (clock.parsed_at n) v.span.start_time_unix_nano) v s)

  recorded-with_call :
      (now : Time) (s : SpanStore) (v : Visit F)
      → recorded now s v.namespace v.pod v.span
        ≡ with_call (extract_tool_name v.span) (parse_nano now v.span.start_time_unix_nano) v s
  unfolding recorded
  recorded-with_call now s v = go (extract_tool_name v.span)
    where
      go :
          (tool : Text)
          → (if is_empty tool
              then s
              else add_call s v.namespace v.pod tool (parse_nano now v.span.start_time_unix_nano))
            ≡ with_call tool (parse_nano now v.span.start_time_unix_nano) v s
      go [] = refl
      go (c ∷ tool) = refl

  stored-calls_added :
      (n : ℕ) (vs : List (Visit F)) (s : SpanStore) → stored clock n vs s ≡ calls_added n vs s
  stored-calls_added n [] s = refl
  stored-calls_added n (v ∷ vs) s =
      ap (stored clock (suc n) vs) (recorded-with_call (clock.parsed_at n) s v)
      ∙ stored-calls_added (suc n) vs _

  module _ {Q : Type 0} (as_int64 : Q → ℤ × Bool) where
    module _ {B : Type 0} (decode : B → Result (TraceRequest F)) where
      -- A posted request that decodes is answered by 200, and its spans, in order, are all handled,
      -- if their resource names a namespace and a pod: each one with a tool name adds a call of its
      -- pod to the span store, and each one with usage attributes and a service account is one
      -- recorded spend of that account, whether or not it has an entry.
      pub serve_posted :
          (req : HttpRequest B) (tr : TraceRequest F) (s : SpanStore) (c : Cache F)
          (e : Estimator F)
          → req.method ≡ post
          → decode req.body ≡ ok tr
          → let h : Handler F = record { store = s; cache = some c; cost_estimator = some e } in
            let vs = visits tr.resource_spans in
            ((serve clock decode req h).0 ≡ 200)
            × ((serve clock decode req h).1.store ≡ calls_added 0 vs s)
            × ((serve clock decode req h).1.cache ≡ some (run as_int64 c (spends_of clock e 0 vs)))
      unfolding serve
      serve_posted req tr s c e posted decoded =
          let h : Handler F = record { store = s; cache = some c; cost_estimator = some e } in
          rw (posted, decoded)
            (
              refl,
              rw (ingest-visit_all clock tr.resource_spans (0, h))
                  (visit_all-store clock _ 0 h ∙ stored-calls_added 0 (visits tr.resource_spans) s),
              rw (ingest-visit_all clock tr.resource_spans (0, h))
                  (visit_all-cache clock as_int64 _ 0 s c e),
            )

  module _ {B : Type 0} (decode : B → Result (TraceRequest F)) where
    pub serve_posted-store :
        (req : HttpRequest B) (tr : TraceRequest F) (h : Handler F)
        → req.method ≡ post
        → decode req.body ≡ ok tr
        → (serve clock decode req h).1.store ≡ stored clock 0 (visits tr.resource_spans) h.store
    unfolding serve
    serve_posted-store req tr h posted decoded =
        rw (posted, decoded)
          (ap (λ (st : ℕ × Handler F). st.1.store) (ingest-visit_all clock tr.resource_spans (0, h))
            ∙ visit_all-store clock (visits tr.resource_spans) 0 h)

    serve_decoded-store :
        (r : Result (TraceRequest F)) (h h' : Handler F)
        → h.store ≡ h'.store
        → (serve_decoded clock decode r h).1.store ≡ (serve_decoded clock decode r h').1.store
    serve_decoded-store (err x) h h' same = same
    serve_decoded-store (ok tr) h h' same =
        let vs = visits tr.resource_spans in
        ap (λ (st : ℕ × Handler F). st.1.store) (ingest-visit_all clock tr.resource_spans (0, h))
        ∙ visit_all-store clock vs 0 h
        ∙ ap (stored clock 0 vs) same
        ∙ sym (visit_all-store clock vs 0 h')
        ∙ sym (
            ap (λ (st : ℕ × Handler F). st.1.store)
              (ingest-visit_all clock tr.resource_spans (0, h')))

    -- The tool calls that a request records do not depend on cost tracking: from the same span store
    -- two handlers end with the same span store, whatever their ledgers and prices, and whether or
    -- not they have any.
    pub serve-store :
        (req : HttpRequest B) (h h' : Handler F)
        → h.store ≡ h'.store
        → (serve clock decode req h).1.store ≡ (serve clock decode req h').1.store
    unfolding serve
    serve-store req h h' same = go req.method
      where
        go :
            (m : Method)
            → (serve_method clock decode m req.body h).1.store
              ≡ (serve_method clock decode m req.body h').1.store
        go other_method = same
        go post = serve_decoded-store (decode req.body) h h' same

    -- A request that is not answered by 200 changes nothing.
    serve_refused :
        (req : HttpRequest B) (h : Handler F)
        → (serve clock decode req h).0 ≢ 200
        → (serve clock decode req h).1 ≡ h
    unfolding serve
    serve_refused req h refused = go req.method refused
      where
        accepted :
            (r : Result (TraceRequest F))
            → (serve_decoded clock decode r h).0 ≢ 200
            → (serve_decoded clock decode r h).1 ≡ h
        accepted (err x) no_200 = refl
        accepted (ok tr) no_200 = absurd (no_200 refl)

        go :
            (m : Method)
            → (serve_method clock decode m req.body h).0 ≢ 200
            → (serve_method clock decode m req.body h).1 ≡ h
        go other_method no_200 = refl
        go post no_200 = accepted (decode req.body) no_200
