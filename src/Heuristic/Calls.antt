-- ===== src/Heuristic/Calls.antt =====
-- A property of the world that every call of the client keeps is kept by the engine's evaluation of
-- pods.
use kovern.Prelude.{Option, none, some, List, [], ◌∷◌, inl, inr, Bool-cases}
use kovern.Prelude.Int.{pos, leb_ℤ}
use kovern.Prelude.Dict.{lookup}
use kovern.Time.{Time, Duration}
use kovern.Api.{LivelockPolicy, OtelCriteria}
use kovern.Ledger.{key}
use kovern.Spans.{SpanStore, ToolCall}
use kovern.Cluster.{Pod, PodPhase, running, other_phase}
use kovern.Cluster.Client.{Client}
use kovern.Remediation.Calls.{IsKept, remediate-During}
use kovern.Heuristic.{
  Engine, is_short, elapsed, detect, inspect, examine, evaluate_pod, evaluate_pods,
  max_same_tool_count, recent_calls,
}

module _ {W S P : Type 0} (c : Client W S P) (During : W → Type 0) (kept : IsKept c During) where
  pub elapsed-During : (last : Option Time) (w : W) → During w → During (elapsed c last w).1
  elapsed-During none w d = d
  elapsed-During (some last) w d = kept.now w d

  detect-During :
      (otel : OtelCriteria) (pod : Pod) (calls : List ToolCall) (since : Option Duration)
      (e : Engine) (policy : LivelockPolicy S) (w : W)
      → During w
      → During (detect c otel pod calls since e policy w).1
  unfolding detect
  detect-During otel pod calls since e policy w d =
      remediate-During c During kept pod policy (c.now w).1 (kept.now w d)

  module _ (s : SpanStore) where
    inspect-During :
        (otel : OtelCriteria) (pod : Pod) (since : Option Duration) (e : Engine)
        (policy : LivelockPolicy S) (w : W)
        → During w
        → During (inspect c (λ _. s) otel pod since e policy w).1
    inspect-During otel pod since e policy w d =
        let (calls, w') = recent_calls c (λ _. s) otel pod w in
        elim (Bool-cases (leb_ℤ otel.max_same_tool_calls (pos (max_same_tool_count calls)))) [
          | inl many ↦ rw many (detect-During otel pod calls since e policy w' (kept.now w d))
          | inr few ↦ rw few (kept.now w d)
        ]

    pub examine-During :
        (phase : PodPhase) (otel : OtelCriteria) (pod : Pod) (e : Engine)
        (policy : LivelockPolicy S) (w : W)
        → During w
        → During (examine c (λ _. s) phase otel pod e policy w).1
    examine-During other_phase otel pod e policy w d = d
    examine-During running otel pod e policy w d =
        let last = lookup (key pod.namespace pod.name) e.cooldown in
        let (since, w') = elapsed c last w in
        let d' = elapsed-During last w d in
        elim (Bool-cases (is_short since)) [
          | inl short ↦ rw short d'
          | inr long ↦ rw long (inspect-During otel pod since e policy w' d')
        ]

    pub evaluate_pods-During :
        (otel : OtelCriteria) (pods : List Pod) (e : Engine) (policy : LivelockPolicy S) (w : W)
        → During w
        → During (evaluate_pods c (λ _. s) otel pods e policy w).1
    unfolding evaluate_pods evaluate_pod
    evaluate_pods-During otel [] e policy w d = d
    evaluate_pods-During otel (pod ∷ pods) e policy w d =
        let ((e', policy'), w') = evaluate_pod c (λ _. s) otel pod e policy w in
        evaluate_pods-During otel pods e' policy' w'
          (examine-During pod.phase otel pod e policy w d)
