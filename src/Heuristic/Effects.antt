-- ===== src/Heuristic/Effects.antt =====
-- The cooldown of a pod changes only with a remediation of it: through a whole evaluation, either the
-- pod's entry is as it was, or what a remediation brings about has come about.
use kovern.Prelude.{◌≡◌, ◌⊎◌, Option, none, some, true, List, [], ◌∷◌, inl, inr, Bool-cases}
use kovern.Prelude.Int.{pos, leb_ℤ}
use kovern.Prelude.Text.{text_eq}
use kovern.Prelude.Dict.{lookup, lookup-insert}
use kovern.Prelude.Result.{Result, ok, err}
use kovern.Time.{Time, Duration}
use kovern.Api.{LivelockPolicy, OtelCriteria}
use kovern.Ledger.{key}
use kovern.Spans.{SpanStore, ToolCall}
use kovern.Cluster.{Pod, PodPhase, running, other_phase}
use kovern.Cluster.Client.{Client}
use kovern.Remediation.{remediate}
use kovern.Remediation.Calls.{IsKept, remediate-During}
use kovern.Heuristic.{
  Engine, is_short, elapsed, set_cooldown, detect, inspect, examine, evaluate_pod, evaluate_pods,
  evaluate_listed, evaluate_selected, evaluate_otel, evaluate_policy, evaluate_policies, evaluate,
  max_same_tool_count, recent_calls,
}

-- While `During` holds, `Done` lasts, and each remediation of a pod with this `namespace/name` brings
-- it about.
pub record Brings {W S P : Type 0} (c : Client W S P) (During Done : W → Type 0) (pod : Pod)
    : Type 0 where
  pub lasts : IsKept c (λ w. During w × Done w)
  pub brought :
      (other : Pod) (policy : LivelockPolicy S) (w : W)
      → text_eq (key other.namespace other.name) (key pod.namespace pod.name) ≡ true
      → During w
      → Done (remediate c other policy w).1

module _ {W S P : Type 0} (c : Client W S P) (During Done : W → Type 0) (kept : IsKept c During)
    (pod : Pod) (b : Brings c During Done pod) (s : SpanStore) (old : Option Time) where
  -- The pod's entry is the old one, or `Done`.
  abbrev pub Unless : Engine → W → Type 0
  Unless e w = During w × ((lookup (key pod.namespace pod.name) e.cooldown ≡ old) ⊎ Done w)

  by_call :
      (e : Engine) (w w' : W)
      → (During w → During w')
      → (During w × Done w → During w' × Done w')
      → Unless e w
      → Unless e w'
  by_call e w w' keep last (d, inl same) = (keep d, inl same)
  by_call e w w' keep last (d, inr done) = let (d', done') = last (d, done) in (d', inr done')

  now-Unless : (e : Engine) (w : W) → Unless e w → Unless e (c.now w).1
  now-Unless e w u = by_call e w (c.now w).1 (kept.now w) (b.lasts.now w) u

  elapsed-Unless :
      (last : Option Time) (e : Engine) (w : W) → Unless e w → Unless e (elapsed c last w).1
  elapsed-Unless none e w u = u
  elapsed-Unless (some last) e w u = now-Unless e w u

  remediate-Unless :
      (other : Pod) (policy : LivelockPolicy S) (e : Engine) (w : W)
      → Unless e w
      → Unless e (remediate c other policy w).1
  remediate-Unless other policy e w u =
      by_call e w (remediate c other policy w).1 (remediate-During c During kept other policy w)
        (remediate-During c (λ w. During w × Done w) b.lasts other policy w) u

  -- A detection.
  detect-Unless :
      (otel : OtelCriteria) (other : Pod) (calls : List ToolCall) (since : Option Duration)
      (e : Engine) (policy : LivelockPolicy S) (w : W)
      → Unless e w
      → Unless
          (detect c otel other calls since e policy w).0.0
          (detect c otel other calls since e policy w).1
  unfolding detect set_cooldown
  detect-Unless otel other calls since e policy w u =
      let w1 = (c.now w).1 in
      let (d, _) = now-Unless e w u in
      elim (Bool-cases (text_eq (key other.namespace other.name) (key pod.namespace pod.name))) [
        | inl same ↦ (
          remediate-During c During kept other policy w1 d,
          inr (b.brought other policy w1 same d),
        )
        | inr differ ↦
            rw (lookup-insert, differ) (remediate-Unless other policy e w1 (now-Unless e w u))
      ]

  inspect-Unless :
      (otel : OtelCriteria) (other : Pod) (since : Option Duration) (e : Engine)
      (policy : LivelockPolicy S) (w : W)
      → Unless e w
      → Unless
          (inspect c (λ _. s) otel other since e policy w).0.0
          (inspect c (λ _. s) otel other since e policy w).1
  inspect-Unless otel other since e policy w u =
      let (calls, w') = recent_calls c (λ _. s) otel other w in
      elim (Bool-cases (leb_ℤ otel.max_same_tool_calls (pos (max_same_tool_count calls)))) [
        | inl many ↦ rw many (detect-Unless otel other calls since e policy w' (now-Unless e w u))
        | inr few ↦ rw few (now-Unless e w u)
      ]

  examine-Unless :
      (phase : PodPhase) (otel : OtelCriteria) (other : Pod) (e : Engine)
      (policy : LivelockPolicy S) (w : W)
      → Unless e w
      → Unless
          (examine c (λ _. s) phase otel other e policy w).0.0
          (examine c (λ _. s) phase otel other e policy w).1
  examine-Unless other_phase otel other e policy w u = u
  examine-Unless running otel other e policy w u =
      let last = lookup (key other.namespace other.name) e.cooldown in
      let (since, w') = elapsed c last w in
      let u' = elapsed-Unless last e w u in
      elim (Bool-cases (is_short since)) [
        | inl short ↦ rw short u'
        | inr long ↦ rw long (inspect-Unless otel other since e policy w' u')
      ]

  evaluate_pods-Unless :
      (otel : OtelCriteria) (pods : List Pod) (e : Engine) (policy : LivelockPolicy S) (w : W)
      → Unless e w
      → Unless
          (evaluate_pods c (λ _. s) otel pods e policy w).0.0
          (evaluate_pods c (λ _. s) otel pods e policy w).1
  unfolding evaluate_pods evaluate_pod
  evaluate_pods-Unless otel [] e policy w u = u
  evaluate_pods-Unless otel (other ∷ pods) e policy w u =
      let ((e', policy'), w') = evaluate_pod c (λ _. s) otel other e policy w in
      evaluate_pods-Unless otel pods e' policy' w'
        (examine-Unless other.phase otel other e policy w u)

  abbrev After : Engine × W → Type 0
  After (e, w) = Unless e w

  evaluate_listed-Unless :
      (otel : OtelCriteria) (policy : LivelockPolicy S) (e : Engine) (r : Result (List Pod)) (w : W)
      → Unless e w
      → After (evaluate_listed c (λ _. s) otel policy e r w)
  evaluate_listed-Unless otel policy e (err x) w u = u
  evaluate_listed-Unless otel policy e (ok pods) w u = evaluate_pods-Unless otel pods e policy w u

  evaluate_selected-Unless :
      (otel : OtelCriteria) (policy : LivelockPolicy S) (e : Engine) (r : Result P) (w : W)
      → Unless e w
      → After (evaluate_selected c (λ _. s) otel policy e r w)
  evaluate_selected-Unless otel policy e (err x) w u = u
  evaluate_selected-Unless otel policy e (ok selector) w u =
      let ns = policy.namespace in
      evaluate_listed-Unless otel policy e _ _ (
        by_call e w (c.list_pods ns selector w).1 (kept.list_pods ns selector w)
          (b.lasts.list_pods ns selector w) u)

  evaluate_otel-Unless :
      (o : Option OtelCriteria) (policy : LivelockPolicy S) (e : Engine) (w : W)
      → Unless e w
      → After (evaluate_otel c (λ _. s) o policy e w)
  evaluate_otel-Unless none policy e w u = u
  evaluate_otel-Unless (some otel) policy e w u = evaluate_selected-Unless otel policy e _ w u

  evaluate_policies-Unless :
      (policies : List (LivelockPolicy S)) (e : Engine) (w : W)
      → Unless e w
      → After (evaluate_policies c (λ _. s) policies e w)
  unfolding evaluate_policies evaluate_policy
  evaluate_policies-Unless [] e w u = u
  evaluate_policies-Unless (policy ∷ policies) e w u =
      evaluate_policies-Unless policies _ _
        (evaluate_otel-Unless policy.spec.detection.otel policy e w u)

  pub evaluate-Unless :
      (policies : List (LivelockPolicy S)) (e : Engine) (w : W)
      → (c.list_policies w).0 ≡ ok policies
      → Unless e w
      → Unless (evaluate c (λ _. s) e w).0.0 (evaluate c (λ _. s) e w).1
  unfolding evaluate
  evaluate-Unless policies e w listed u = rw listed (
      evaluate_policies-Unless policies e (c.list_policies w).1
        (by_call e w (c.list_policies w).1 (kept.list_policies w) (b.lasts.list_policies w) u))
