-- ===== src/Heuristic/Cooldowns.antt =====
-- The engine's cooldown: how far apart the remediations of a pod are, over any ticks.
use kovern.Prelude.{
  ◌≡◌, refl, false, Option, none, some, List, [], ◌∷◌, if◌then◌else◌, arith, Bool-cases, inl, inr,
}
use kovern.Prelude.Int.{◌≤ℤ◌, leb_ℤ, pos, ltb_ℤ}
use kovern.Prelude.Text.{Text, text_eq}
use kovern.Prelude.Dict.{lookup, lookup-insert}
use kovern.Prelude.Result.{Result, ok, err}
use kovern.Time
use kovern.Time.{Time, Duration}
use kovern.Api.{LivelockPolicy, OtelCriteria}
use kovern.Ledger.{key}
use kovern.Spans.{SpanStore, ToolCall}
use kovern.Cluster.{Pod, PodPhase, running, other_phase}
use kovern.Cluster.Client.{Client}
use kovern.Heuristic.{
  Engine, Detection, new, two_minutes, is_short, elapsed, set_cooldown, detect, inspect, examine,
  evaluate_pod, evaluate_pods, evaluate_listed, evaluate_selected, evaluate_otel, evaluate_policy,
  evaluate_policies, evaluate_result, evaluate, tick, ticks, max_same_tool_count, recent_calls,
}

-- The cooldown mark of the last detection under a key.
abbrev pub latest : Text → List Detection → Option Time
latest k [] = none
latest k (d ∷ ds) = if text_eq (key d.namespace d.pod) k then some d.marked_at else latest k ds

-- Since the last mark, if there is one, two minutes or more had passed.
abbrev pub Waited : Option Time → Option Duration → Type 0
Waited none since = since ≡ none
Waited (some last) since =
    (now : Time) × (since ≡ some (Time.sub now last)) × (two_minutes ≤ℤ Time.sub now last)

-- Each detection came two minutes or more after the one before it of the same pod.
abbrev pub Spaced : List Detection → Type 0
Spaced [] = Unit
Spaced (d ∷ ds) = Waited (latest (key d.namespace d.pod) ds) d.since × Spaced ds

-- The cooldown map has the last mark of each pod.
pub record IsValid (e : Engine) : Type 0 where
  pub kept : (k : Text) → lookup k e.cooldown ≡ latest k e.detections
  pub spaced : Spaced e.detections

not_short : (d : Duration) → ltb_ℤ d two_minutes ≡ false → two_minutes ≤ℤ d
not_short d h = ground arith

pub new-IsValid : IsValid new
unfolding lookup new
new-IsValid = record { kept = λ k. refl; spaced = tt }

module _ {W S P : Type 0} (c : Client W S P) where
  elapsed-Waited :
      (last : Option Time) (w : W)
      → is_short (elapsed c last w).0 ≡ false
      → Waited last (elapsed c last w).0
  elapsed-Waited none w h = refl
  elapsed-Waited (some last) w h = ((c.now w).0, refl, not_short _ h)

  detect-IsValid :
      (otel : OtelCriteria) (pod : Pod) (calls : List ToolCall) (since : Option Duration)
      (e : Engine) (policy : LivelockPolicy S) (w : W)
      → IsValid e
      → Waited (lookup (key pod.namespace pod.name) e.cooldown) since
      → IsValid (detect c otel pod calls since e policy w).0.0
  unfolding detect set_cooldown
  detect-IsValid otel pod calls since e policy w v waited = record {
    kept = λ k. rw (lookup-insert, v.kept k) refl;
    spaced = (rw (← v.kept (key pod.namespace pod.name)) waited, v.spaced);
  }

  module _ (store : W → SpanStore) where
    inspect-IsValid :
        (otel : OtelCriteria) (pod : Pod) (since : Option Duration) (e : Engine)
        (policy : LivelockPolicy S) (w : W)
        → IsValid e
        → Waited (lookup (key pod.namespace pod.name) e.cooldown) since
        → IsValid (inspect c store otel pod since e policy w).0.0
    inspect-IsValid otel pod since e policy w v waited =
        let (calls, w') = recent_calls c store otel pod w in
        elim (Bool-cases (leb_ℤ otel.max_same_tool_calls (pos (max_same_tool_count calls)))) [
          | inl many ↦ rw many (detect-IsValid otel pod calls since e policy w' v waited)
          | inr few ↦ rw few v
        ]

    examine-IsValid :
        (phase : PodPhase) (otel : OtelCriteria) (pod : Pod) (e : Engine)
        (policy : LivelockPolicy S) (w : W)
        → IsValid e
        → IsValid (examine c store phase otel pod e policy w).0.0
    examine-IsValid other_phase otel pod e policy w v = v
    examine-IsValid running otel pod e policy w v =
        let last = lookup (key pod.namespace pod.name) e.cooldown in
        let (since, w') = elapsed c last w in
        elim (Bool-cases (is_short since)) [
          | inl short ↦ rw short v
          | inr long ↦
              rw long (inspect-IsValid otel pod since e policy w' v (elapsed-Waited last w long))
        ]

    pub evaluate_pod-IsValid :
        (otel : OtelCriteria) (pod : Pod) (e : Engine) (policy : LivelockPolicy S) (w : W)
        → IsValid e
        → IsValid (evaluate_pod c store otel pod e policy w).0.0
    unfolding evaluate_pod
    evaluate_pod-IsValid otel pod e policy w v = examine-IsValid pod.phase otel pod e policy w v

    evaluate_pods-IsValid :
        (otel : OtelCriteria) (pods : List Pod) (e : Engine) (policy : LivelockPolicy S) (w : W)
        → IsValid e
        → IsValid (evaluate_pods c store otel pods e policy w).0.0
    unfolding evaluate_pods
    evaluate_pods-IsValid otel [] e policy w v = v
    evaluate_pods-IsValid otel (pod ∷ pods) e policy w v =
        let ((e', policy'), w') = evaluate_pod c store otel pod e policy w in
        evaluate_pods-IsValid otel pods e' policy' w' (evaluate_pod-IsValid otel pod e policy w v)

    evaluate_listed-IsValid :
        (otel : OtelCriteria) (policy : LivelockPolicy S) (e : Engine) (r : Result (List Pod))
        (w : W)
        → IsValid e
        → IsValid (evaluate_listed c store otel policy e r w).0
    evaluate_listed-IsValid otel policy e (err x) w v = v
    evaluate_listed-IsValid otel policy e (ok pods) w v =
        evaluate_pods-IsValid otel pods e policy w v

    evaluate_selected-IsValid :
        (otel : OtelCriteria) (policy : LivelockPolicy S) (e : Engine) (r : Result P) (w : W)
        → IsValid e
        → IsValid (evaluate_selected c store otel policy e r w).0
    evaluate_selected-IsValid otel policy e (err x) w v = v
    evaluate_selected-IsValid otel policy e (ok selector) w v =
        evaluate_listed-IsValid otel policy e _ _ v

    evaluate_otel-IsValid :
        (o : Option OtelCriteria) (policy : LivelockPolicy S) (e : Engine) (w : W)
        → IsValid e
        → IsValid (evaluate_otel c store o policy e w).0
    evaluate_otel-IsValid none policy e w v = v
    evaluate_otel-IsValid (some otel) policy e w v = evaluate_selected-IsValid otel policy e _ w v

    evaluate_policies-IsValid :
        (policies : List (LivelockPolicy S)) (e : Engine) (w : W)
        → IsValid e
        → IsValid (evaluate_policies c store policies e w).0
    unfolding evaluate_policies evaluate_policy
    evaluate_policies-IsValid [] e w v = v
    evaluate_policies-IsValid (policy ∷ policies) e w v =
        evaluate_policies-IsValid policies _ _
          (evaluate_otel-IsValid policy.spec.detection.otel policy e w v)

    evaluate_result-IsValid :
        (r : Result (List (LivelockPolicy S))) (e : Engine) (w : W)
        → IsValid e
        → IsValid (evaluate_result c store e r w).0.0
    evaluate_result-IsValid (err x) e w v = v
    evaluate_result-IsValid (ok policies) e w v = evaluate_policies-IsValid policies e w v

    evaluate-IsValid : (e : Engine) (w : W) → IsValid e → IsValid (evaluate c store e w).0.0
    unfolding evaluate
    evaluate-IsValid e w v = evaluate_result-IsValid _ e _ v

    module _ (put_store : SpanStore → W → W) where
      ticks_keep-IsValid :
          (steps : List (W → W)) (e : Engine) (w : W)
          → IsValid e
          → IsValid (ticks c store put_store steps e w).0
      unfolding ticks tick
      ticks_keep-IsValid [] e w v = v
      ticks_keep-IsValid (step ∷ steps) e w v =
          ticks_keep-IsValid steps _ _ (evaluate-IsValid e _ v)

      -- Over any number of ticks, with any steps of the rest of the world between them, the engine
      -- logs a detection of a pod only two minutes or more after the one before it under the pod's
      -- key: by the clock as `onCooldown` reads it, against the reading that `setCooldown` kept.
      pub ticks-Spaced :
          (steps : List (W → W)) (w : W) → Spaced (ticks c store put_store steps new w).0.detections
      ticks-Spaced steps w = let v = ticks_keep-IsValid steps new w new-IsValid in v.spaced
