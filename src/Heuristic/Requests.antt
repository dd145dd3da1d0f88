-- ===== src/Heuristic/Requests.antt =====
-- From a request with traces to a remediation: the receiver and the engine on one span store.
use kovern.Prelude.{ℕ, ◌≤◌, ◌≡◌, ◌∙◌, ap, ◌+◌, List, [], ◌∷◌, ◌++◌, keep, arith}
use kovern.Prelude.Int.{pos}
use kovern.Prelude.Text.{Text}
use kovern.Prelude.Result.{Result, ok}
use kovern.Float.{Float64}
use kovern.Time.{Time}
use kovern.Api.{OtelCriteria}
use kovern.Ledger.Keys.{SlashFree}
use kovern.Spans.{SpanStore, ToolCall, is_recent, cutoff, window, add_call, trim}
use kovern.Spans.Windows.{
  IsValid, add_call-IsValid, trim-IsValid, ten_minutes, window-add_call_from_cutoff,
  window-trim-ten_minutes,
}
use kovern.Cluster.{Pod}
use kovern.Receiver.{Clock, Handler, HttpRequest, post, serve}
use kovern.Receiver.Attributes.{TraceRequest}
use kovern.Receiver.Visits.{stored, visits}
use kovern.Receiver.Calls.{reported, NamesAreSlashFree, window-stored, stored-IsValid}
use kovern.Receiver.Requests.{serve_posted-store}
use kovern.Heuristic.Tallies.{calls_to}

calls_to-append :
    (tool : Text) (xs ys : List ToolCall)
    → calls_to tool (xs ++ ys) ≡ calls_to tool xs + calls_to tool ys
calls_to-append tool [] ys = omega arith
calls_to-append tool (x ∷ xs) ys = ground (arith, calls_to-append tool xs ys)

-- What the receiver and the engine make of a span store up to the time `now`: calls are added, of
-- namespaces without a slash, and old ones trimmed.
pub data Evolves (now : Time) (s : SpanStore) : SpanStore → Type 0 where
  unchanged : Evolves now s s
  adds :
      {t : SpanStore} (ns pod tool : Text) (ts : Time)
      → SlashFree ns
      → Evolves now s t
      → Evolves now s (add_call t ns pod tool ts)
  trims :
      {t : SpanStore} (at : Time)
      → at ≤ now
      → Evolves now s t
      → Evolves now s (trim at t ten_minutes)

evolved-IsValid :
    {now : Time} (s : SpanStore) {t : SpanStore} → Evolves now s t → IsValid s → IsValid t
evolved-IsValid s unchanged v = v
evolved-IsValid s (adds ns pod tool ts _ rest) v =
    add_call-IsValid _ ns pod tool ts (evolved-IsValid s rest v)
evolved-IsValid s (trims at _ rest) v = trim-IsValid at _ ten_minutes (evolved-IsValid s rest v)

-- A window of at most ten minutes loses no call.
calls_to-Evolves :
    (now : Time) (s : SpanStore) (ns pod tool : Text) (k : ℕ)
    → k ≤ 600
    → SlashFree ns
    → IsValid s
    → {t : SpanStore} → Evolves now s t
    → calls_to tool (window now s ns pod (pos k)) ≤ calls_to tool (window now t ns pod (pos k))
calls_to-Evolves now s ns pod tool k short slash v unchanged = omega arith
calls_to-Evolves now s ns pod tool k short slash v (adds {t} ns' pod' tool' ts slash' rest) =
    let more = calls_to-Evolves now s ns pod tool k short slash v rest in
    rw
      (
        window-add_call_from_cutoff now t ns' pod' ns pod tool' ts (pos k) slash' slash,
        calls_to-append tool (window now t ns pod (pos k)) _,
      )
      (omega (arith, more))
calls_to-Evolves now s ns pod tool k short slash v (trims {t} at past rest) =
    rw (window-trim-ten_minutes at now t ns pod k (evolved-IsValid s rest v) short past)
      (calls_to-Evolves now s ns pod tool k short slash v rest)

-- The calls of the pod that a request reports and that the policy's window reaches at `now`.
abbrev pub reported_within :
    {F : Type 0} → Time → Clock → OtelCriteria → Pod → TraceRequest F → List ToolCall
reported_within now clock otel pod tr =
    keep (is_recent (cutoff now otel.window_seconds))
      (reported clock pod.namespace pod.name 0 (visits tr.resource_spans))

module _ {F B : Type 0} ⦃f : Float64 F⦄ (clock : Clock) (decode : B → Result (TraceRequest F)) where
  -- The calls that a request reports are seen at the time `now`.
  pub serve-window :
      (now : Time) (req : HttpRequest B) (tr : TraceRequest F) (h : Handler F) (otel : OtelCriteria)
      (k : ℕ) (pod : Pod) (tool : Text) (s : SpanStore)
      → req.method ≡ post
      → decode req.body ≡ ok tr
      → IsValid h.store
      → SlashFree pod.namespace
      → NamesAreSlashFree (visits tr.resource_spans)
      → otel.window_seconds ≡ pos k
      → k ≤ 600
      → Evolves now (serve clock decode req h).1.store s
      → calls_to tool (reported_within now clock otel pod tr)
        ≤ calls_to tool (window now s pod.namespace pod.name otel.window_seconds)
  serve-window now req tr h otel k pod tool s posted decoded valid slash slashes is short evolves =
      let vs = visits tr.resource_spans in
      let reports = reported_within now clock otel pod tr in
      let served = serve_posted-store clock decode req tr h posted decoded in
      let shown =
        window-stored clock now 0 vs h.store pod.namespace pod.name otel.window_seconds slash
          slashes in
      let count =
        ap (calls_to tool) shown
        ∙ calls_to-append tool (window now h.store pod.namespace pod.name otel.window_seconds)
            reports in
      let kept =
        calls_to-Evolves now (stored clock 0 vs h.store) pod.namespace pod.name tool k short slash
          (stored-IsValid clock 0 vs h.store valid) (rw served at (evolves)) in
      rw is (omega (arith, rw is at (count), kept))
