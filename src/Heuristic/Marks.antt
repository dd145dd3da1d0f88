-- ===== src/Heuristic/Marks.antt =====
-- What an evaluation of the engine does to the mark that the cooldown keeps of one pod.
use kovern.Prelude.{
  ◌≡◌, ◌≤◌, refl, Option, none, some, true, List, [], ◌∷◌, arith, inl, inr, Bool-cases, AnyOf,
}
use kovern.Prelude.Int.{pos, leb_ℤ, ltb_ℤ}
use kovern.Prelude.Text.{text_eq, text_eq_refl}
use kovern.Prelude.Dict.{lookup, lookup-insert}
use kovern.Time.{Time, Duration, sub}
use kovern.Api.{LivelockPolicy, OtelCriteria}
use kovern.Ledger.{key}
use kovern.Spans.{SpanStore, ToolCall, window}
use kovern.Cluster.{Pod, PodPhase, running, other_phase}
use kovern.Cluster.Client.{Client}
use kovern.Remediation.Calls.{IsKept}
use kovern.Heuristic.{
  Engine, two_minutes, is_short, elapsed, set_cooldown, detect, inspect, examine, evaluate_pod,
  evaluate_pods, max_same_tool_count, recent_calls,
}
use kovern.Heuristic.Calls.{elapsed-During, examine-During}
use kovern.Heuristic.Remediations.{Loops, looping_iff}

-- The last remediation of the pod was less than two minutes before some time from `t0` to `t1`.
pub record IsMarked (t0 t1 : Time) (pod : Pod) (e : Engine) : Type 0 where
  pub last : Time
  pub now : Time
  pub found : lookup (key pod.namespace pod.name) e.cooldown ≡ some last
  pub recent : ltb_ℤ (sub now last) two_minutes ≡ true
  pub not_before : t0 ≤ now
  pub not_after : now ≤ t1

sub_self_is_short : (t : Time) → ltb_ℤ (sub t t) two_minutes ≡ true
unfolding sub
sub_self_is_short t = ground arith

module _ {W S P : Type 0} (c : Client W S P) (During : W → Type 0) (kept : IsKept c During)
    (t0 t1 : Time) (clock : (w : W) → During w → (t0 ≤ (c.now w).0) × ((c.now w).0 ≤ t1))
    (s : SpanStore) where
  module _ (pod : Pod) where
    -- A detection marks its pod.
    detect_marks :
        (otel : OtelCriteria) (calls : List ToolCall) (since : Option Duration) (e : Engine)
        (policy : LivelockPolicy S) (w : W)
        → During w
        → IsMarked t0 t1 pod (detect c otel pod calls since e policy w).0.0
    unfolding detect set_cooldown
    detect_marks otel calls since e policy w d =
        let now = (c.now w).0 in
        record {
          last = now;
          now = now;
          found = rw (lookup-insert, text_eq_refl (key pod.namespace pod.name)) refl;
          recent = sub_self_is_short now;
          not_before = (clock w d).0;
          not_after = (clock w d).1;
        }

    -- A detection of any pod leaves the pod marked.
    detect-IsMarked :
        (otel : OtelCriteria) (other : Pod) (calls : List ToolCall) (since : Option Duration)
        (e : Engine) (policy : LivelockPolicy S) (w : W)
        → During w
        → IsMarked t0 t1 pod e
        → IsMarked t0 t1 pod (detect c otel other calls since e policy w).0.0
    unfolding detect set_cooldown
    detect-IsMarked otel other calls since e policy w d m =
        let k = key pod.namespace pod.name in
        let j = key other.namespace other.name in
        elim (Bool-cases (text_eq j k)) [
          | inl same ↦ record {
            last = (c.now w).0;
            now = (c.now w).0;
            found = rw (lookup-insert, same) refl;
            recent = sub_self_is_short (c.now w).0;
            not_before = (clock w d).0;
            not_after = (clock w d).1;
          }
          | inr differ ↦ record {
            last = m.last;
            now = m.now;
            found = rw (lookup-insert, differ) m.found;
            recent = m.recent;
            not_before = m.not_before;
            not_after = m.not_after;
          }
        ]

    inspect-IsMarked :
        (otel : OtelCriteria) (other : Pod) (since : Option Duration) (e : Engine)
        (policy : LivelockPolicy S) (w : W)
        → During w
        → IsMarked t0 t1 pod e
        → IsMarked t0 t1 pod (inspect c (λ _. s) otel other since e policy w).0.0
    inspect-IsMarked otel other since e policy w d m =
        let (calls, w') = recent_calls c (λ _. s) otel other w in
        elim (Bool-cases (leb_ℤ otel.max_same_tool_calls (pos (max_same_tool_count calls)))) [
          | inl many ↦ rw many (detect-IsMarked otel other calls since e policy w' (kept.now w d) m)
          | inr few ↦ rw few m
        ]

    examine-IsMarked :
        (phase : PodPhase) (otel : OtelCriteria) (other : Pod) (e : Engine)
        (policy : LivelockPolicy S) (w : W)
        → During w
        → IsMarked t0 t1 pod e
        → IsMarked t0 t1 pod (examine c (λ _. s) phase otel other e policy w).0.0
    examine-IsMarked other_phase otel other e policy w d m = m
    examine-IsMarked running otel other e policy w d m =
        let last = lookup (key other.namespace other.name) e.cooldown in
        let (since, w') = elapsed c last w in
        elim (Bool-cases (is_short since)) [
          | inl short ↦ rw short m
          | inr long ↦ rw long (
              inspect-IsMarked otel other since e policy w' (elapsed-During c During kept last w d)
                m)
        ]

    pub evaluate_pods-IsMarked :
        (otel : OtelCriteria) (pods : List Pod) (e : Engine) (policy : LivelockPolicy S) (w : W)
        → During w
        → IsMarked t0 t1 pod e
        → IsMarked t0 t1 pod (evaluate_pods c (λ _. s) otel pods e policy w).0.0
    unfolding evaluate_pods evaluate_pod
    evaluate_pods-IsMarked otel [] e policy w d m = m
    evaluate_pods-IsMarked otel (other ∷ pods) e policy w d m =
        let ((e', policy'), w') = evaluate_pod c (λ _. s) otel other e policy w in
        evaluate_pods-IsMarked otel pods e' policy' w'
          (examine-During c During kept s other.phase otel other e policy w d)
          (examine-IsMarked other.phase otel other e policy w d m)

    -- Whatever the time of the evaluation, the pod has a loop in the window of the policy.
    abbrev pub LoopsDuring : OtelCriteria → Type 0
    LoopsDuring otel =
        (now : Time)
        → t0 ≤ now
        → now ≤ t1
        → Loops otel.max_same_tool_calls (window now s pod.namespace pod.name otel.window_seconds)

    inspect_marks :
        (otel : OtelCriteria) (since : Option Duration) (e : Engine) (policy : LivelockPolicy S)
        (w : W)
        → During w
        → LoopsDuring otel
        → IsMarked t0 t1 pod (inspect c (λ _. s) otel pod since e policy w).0.0
    inspect_marks otel since e policy w d loops =
        let (calls, w') = recent_calls c (λ _. s) otel pod w in
        let many =
          (looping_iff c (λ _. s) otel.max_same_tool_calls calls).0
            (loops (c.now w).0 (clock w d).0 (clock w d).1) in
        rw many (detect_marks otel calls since e policy w' (kept.now w d))

    examine_marks :
        (otel : OtelCriteria) (e : Engine) (policy : LivelockPolicy S) (w : W)
        → During w
        → LoopsDuring otel
        → IsMarked t0 t1 pod (examine c (λ _. s) running otel pod e policy w).0.0
    examine_marks otel e policy w d loops = go (lookup (key pod.namespace pod.name) e.cooldown) refl
      where
        go :
            (last : Option Time)
            → lookup (key pod.namespace pod.name) e.cooldown ≡ last
            → IsMarked t0 t1 pod (examine c (λ _. s) running otel pod e policy w).0.0
        go none is = rw is (inspect_marks otel none e policy w d loops)
        go (some last) is = elim (Bool-cases (ltb_ℤ (sub (c.now w).0 last) two_minutes)) [
          | inl short ↦
              rw (is, short)
                record {
                  last = last;
                  now = (c.now w).0;
                  found = is;
                  recent = short;
                  not_before = (clock w d).0;
                  not_after = (clock w d).1;
                }
          | inr long ↦
              rw (is, long)
                (inspect_marks otel (some (sub (c.now w).0 last)) e policy (c.now w).1
                  (kept.now w d) loops)
        ]

    -- The pod among those that an evaluation comes to.
    pub evaluate_pods_mark :
        (otel : OtelCriteria) (pods : List Pod) (e : Engine) (policy : LivelockPolicy S) (w : W)
        → During w
        → AnyOf (λ x. x ≡ pod) pods
        → pod.phase ≡ running
        → LoopsDuring otel
        → IsMarked t0 t1 pod (evaluate_pods c (λ _. s) otel pods e policy w).0.0
    unfolding evaluate_pods evaluate_pod
    evaluate_pods_mark otel [] e policy w d found runs loops = absurd found
    evaluate_pods_mark otel (other ∷ pods) e policy w d (inl same) runs loops =
        let ((e', policy'), w') = evaluate_pod c (λ _. s) otel other e policy w in
        let now_marked : IsMarked t0 t1 pod
            (examine c (λ _. s) other.phase otel other e policy w).0.0 =
          rw same (go pod.phase refl) in
        evaluate_pods-IsMarked otel pods e' policy' w'
          (examine-During c During kept s other.phase otel other e policy w d) now_marked
      where
        go :
            (phase : PodPhase)
            → pod.phase ≡ phase
            → IsMarked t0 t1 pod (examine c (λ _. s) phase otel pod e policy w).0.0
        go running _ = examine_marks otel e policy w d loops
        go other_phase idle = cc (idle, runs)
    evaluate_pods_mark otel (other ∷ pods) e policy w d (inr found) runs loops =
        let ((e', policy'), w') = evaluate_pod c (λ _. s) otel other e policy w in
        evaluate_pods_mark otel pods e' policy' w'
          (examine-During c During kept s other.phase otel other e policy w d) found runs loops
