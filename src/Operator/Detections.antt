-- ===== src/Operator/Detections.antt =====
-- From a request with traces to a remediation, in the running operator: the receiver, whatever comes
-- in between, and a whole tick of the engine.
use kovern.Prelude.{ℕ, ◌≤◌, ◌≡◌, refl, sym, ◌∙◌, ◌⊎◌, inl, inr, some, List, AnyOf}
use kovern.Prelude.Dict.{lookup}
use kovern.Ledger.{key}
use kovern.Heuristic.{Engine}
use kovern.Heuristic.Effects.{Brings, evaluate-Unless}
use kovern.Prelude.Int.{pos, ◌≤ℤ◌}
use kovern.Prelude.Text.{Text}
use kovern.Prelude.Result.{Result, ok}
use kovern.Float.{Float64}
use kovern.Time.{Time}
use kovern.Api.{LivelockPolicy, OtelCriteria}
use kovern.Ledger.Keys.{SlashFree}
use kovern.Spans.{trim}
use kovern.Spans.Windows
use kovern.Spans.Windows.{ten_minutes}
use kovern.Cluster.{Pod, running}
use kovern.Cluster.Client.{Client}
use kovern.Remediation.Calls.{IsKept}
use kovern.Receiver.{Clock, HttpRequest, post}
use kovern.Receiver.Attributes.{TraceRequest}
use kovern.Receiver.Visits.{visits}
use kovern.Receiver.Calls.{NamesAreSlashFree}
use kovern.Heuristic.Tallies.{calls_to}
use kovern.Heuristic.Remediations.{pos_mono}
use kovern.Heuristic.Requests.{Evolves, reported_within, serve-window}
use kovern.Heuristic.Reports.{calls_to-window_mono}
use kovern.Heuristic.Marks.{IsMarked}
use kovern.Heuristic.Evaluations.{evaluate_marks}
use kovern.Operator.{System, handler, receive, engine_tick}

-- A tick of the engine from `t0` to `t1`: `During` holds of the states of the cluster meanwhile.
pub record IsTick {K S P : Type 0} (client : Client K S P) (During : K → Type 0) (t0 t1 : Time)
    : Type 0 where
  pub kept : IsKept client During
  pub clock : (k : K) → During k → (t0 ≤ (client.now k).0) × ((client.now k).0 ≤ t1)

-- Throughout the tick the API lists the pod for the policy.
pub record Watches {K S P : Type 0} (client : Client K S P) (During : K → Type 0)
    (policy : LivelockPolicy S) (otel : OtelCriteria) (pod : Pod) : Type 0 where
  pub selector : P
  pub enabled : policy.spec.detection.otel ≡ some otel
  pub selects : client.as_selector policy.spec.selector ≡ ok selector
  pub lists :
      (k : K)
      → During k
      → (pods : List Pod) × ((client.list_pods policy.namespace selector k).0 ≡ ok pods)
        × AnyOf (λ x. x ≡ pod) pods

-- A mark of the pod that was there before, where the pod's entry is as before.
old_or_done :
    (t0 t1 : Time) (pod : Pod) (e e' : Engine) (Done : Type 0)
    → IsMarked t0 t1 pod e'
    → (lookup (key pod.namespace pod.name) e'.cooldown
        ≡ lookup (key pod.namespace pod.name) e.cooldown)
      ⊎ Done
    → IsMarked t0 t1 pod e ⊎ Done
old_or_done t0 t1 pod e e' Done m (inr done) = inr done
old_or_done t0 t1 pod e e' Done m (inl same) = inl record {
  last = m.last;
  now = m.now;
  found = sym same ∙ m.found;
  recent = m.recent;
  not_before = m.not_before;
  not_after = m.not_after;
}

module _ {F K S P B : Type 0} ⦃f : Float64 F⦄ (client : Client K S P) (clock : Clock)
    (decode : B → Result (TraceRequest F)) (During Done : K → Type 0) (t0 t1 : Time) where
  -- No looping pod escapes a tick: if a posted request that decodes reports, of a running pod, as
  -- many calls of one tool within the window at the end of a later tick of the engine, of at most ten
  -- minutes, as a policy takes for a loop, and if throughout the tick the API lists the pod for
  -- that policy, then the tick remediates a pod of its `namespace/name`, unless it found that the last
  -- remediation was less than two minutes before some time of the tick: whatever in the cluster or
  -- in the record of the calls to its API each such remediation brings about, and the tick's other
  -- calls leave, has come about. In both cases the pod is on cooldown after the tick. This holds
  -- whatever other policies and pods the tick evaluates, in whatever order, whichever calls of the
  -- API fail, and whatever other requests and trims do to the span store before. (No namespace
  -- holds a slash, no key stands twice in the store, and no trim is later than the tick.)
  pub receive-engine_tick :
      (req : HttpRequest B) (tr : TraceRequest F) (s u : System F K) (now : Time)
      (policies : List (LivelockPolicy S)) (policy : LivelockPolicy S) (otel : OtelCriteria) (n : ℕ)
      (pod : Pod) (tool : Text)
      → IsTick client During t0 t1
      → Brings client During Done pod
      → req.method ≡ post
      → decode req.body ≡ ok tr
      → Windows.IsValid s.spans
      → SlashFree pod.namespace
      → NamesAreSlashFree (visits tr.resource_spans)
      → Evolves t1 (receive clock decode req s).1.spans u.spans
      → now ≤ t1
      → During u.cluster
      → (client.list_policies u.cluster).0 ≡ ok policies
      → AnyOf (λ x. x ≡ policy) policies
      → Watches client During policy otel pod
      → pod.phase ≡ running
      → otel.window_seconds ≡ pos n
      → n ≤ 600
      → otel.max_same_tool_calls ≤ℤ pos (calls_to tool (reported_within t1 clock otel pod tr))
      → let after = (engine_tick client now u).1 in
        IsMarked t0 t1 pod after.engine × (IsMarked t0 t1 pod u.engine ⊎ Done after.cluster)
  unfolding receive engine_tick
  receive-engine_tick req tr s u now policies policy otel n pod tool t brings posted decoded valid
        slash slashes evolves past during listed found watches runs is short enough =
      let spans = trim now u.spans ten_minutes in
      let seen =
        serve-window clock decode t1 req tr (handler s) otel n pod tool spans posted decoded valid
          slash slashes is short (Evolves.trims now past evolves) in
      let marked =
        evaluate_marks client During t.kept t0 t1 t.clock spans pod policies policy u.engine
          u.cluster during listed found runs
          record {
            otel = otel;
            selector = watches.selector;
            enabled = watches.enabled;
            selects = watches.selects;
            lists = watches.lists;
            loops = λ at _ to. (
              tool,
              pos_mono _ _ _ (calls_to-window_mono tool at t1 spans pod.namespace pod.name _ to)
                  (pos_mono _ _ _ seen enough),
            );
          } in
      let (_, either) =
        evaluate-Unless client During Done t.kept pod brings spans
          (lookup (key pod.namespace pod.name) u.engine.cooldown) policies u.engine u.cluster listed
          (during, inl refl) in
      (marked, old_or_done t0 t1 pod u.engine _ _ marked either)
