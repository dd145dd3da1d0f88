-- ===== src/Heuristic/Evaluations.antt =====
-- An evaluation of the engine comes to every pod of every policy.
use kovern.Prelude.{◌≡◌, ◌≤◌, Option, none, some, List, [], ◌∷◌, inl, inr, AnyOf}
use kovern.Prelude.Result.{Result, ok, err}
use kovern.Time.{Time}
use kovern.Api.{LivelockPolicy, OtelCriteria}
use kovern.Spans.{SpanStore}
use kovern.Cluster.{Pod, running}
use kovern.Cluster.Client.{Client}
use kovern.Remediation.Calls.{IsKept}
use kovern.Heuristic.{
  Engine, evaluate_listed, evaluate_selected, evaluate_otel, evaluate_policy, evaluate_policies,
  evaluate,
}
use kovern.Heuristic.Calls.{evaluate_pods-During}
use kovern.Heuristic.Marks.{IsMarked, LoopsDuring, evaluate_pods-IsMarked, evaluate_pods_mark}

module _ {W S P : Type 0} (c : Client W S P) (During : W → Type 0) (kept : IsKept c During)
    (t0 t1 : Time) (clock : (w : W) → During w → (t0 ≤ (c.now w).0) × ((c.now w).0 ≤ t1))
    (s : SpanStore) (pod : Pod) where
  -- A part of the evaluation leaves the engine and the world such that the world is still one of the
  -- evaluation's, and a mark of the pod is kept.
  abbrev Keeps : Engine → Engine × W → Type 0
  Keeps e (e', w') = During w' × (IsMarked t0 t1 pod e → IsMarked t0 t1 pod e')

  evaluate_listed-Keeps :
      (otel : OtelCriteria) (policy : LivelockPolicy S) (e : Engine) (r : Result (List Pod)) (w : W)
      → During w
      → Keeps e (evaluate_listed c (λ _. s) otel policy e r w)
  evaluate_listed-Keeps otel policy e (err x) w d = (d, λ m. m)
  evaluate_listed-Keeps otel policy e (ok pods) w d = (
    evaluate_pods-During c During kept s otel pods e policy w d,
    λ m. evaluate_pods-IsMarked c During kept t0 t1 clock s pod otel pods e policy w d m,
  )

  evaluate_selected-Keeps :
      (otel : OtelCriteria) (policy : LivelockPolicy S) (e : Engine) (r : Result P) (w : W)
      → During w
      → Keeps e (evaluate_selected c (λ _. s) otel policy e r w)
  evaluate_selected-Keeps otel policy e (err x) w d = (d, λ m. m)
  evaluate_selected-Keeps otel policy e (ok selector) w d =
      evaluate_listed-Keeps otel policy e _ _ (kept.list_pods policy.namespace selector w d)

  evaluate_otel-Keeps :
      (o : Option OtelCriteria) (policy : LivelockPolicy S) (e : Engine) (w : W)
      → During w
      → Keeps e (evaluate_otel c (λ _. s) o policy e w)
  evaluate_otel-Keeps none policy e w d = (d, λ m. m)
  evaluate_otel-Keeps (some otel) policy e w d = evaluate_selected-Keeps otel policy e _ w d

  evaluate_policies-Keeps :
      (policies : List (LivelockPolicy S)) (e : Engine) (w : W)
      → During w
      → Keeps e (evaluate_policies c (λ _. s) policies e w)
  unfolding evaluate_policies evaluate_policy
  evaluate_policies-Keeps [] e w d = (d, λ m. m)
  evaluate_policies-Keeps (policy ∷ policies) e w d =
      let (d', marked) = evaluate_otel-Keeps policy.spec.detection.otel policy e w d in
      let (d'', all_marked) = evaluate_policies-Keeps policies _ _ d' in
      (d'', λ m. all_marked (marked m))

  -- The policy finds the pod, whenever it is evaluated, and the pod has a loop by its criteria.
  pub record Catches (policy : LivelockPolicy S) : Type 0 where
    pub otel : OtelCriteria
    pub selector : P
    pub enabled : policy.spec.detection.otel ≡ some otel
    pub selects : c.as_selector policy.spec.selector ≡ ok selector
    pub lists :
        (w : W)
        → During w
        → (pods : List Pod) × ((c.list_pods policy.namespace selector w).0 ≡ ok pods)
          × AnyOf (λ x. x ≡ pod) pods
    pub loops : LoopsDuring c During kept t0 t1 clock s pod otel

  evaluate_otel_marks :
      (o : Option OtelCriteria) (policy : LivelockPolicy S) (e : Engine) (w : W)
      → During w
      → pod.phase ≡ running
      → (h : Catches policy) → o ≡ some h.otel
      → IsMarked t0 t1 pod (evaluate_otel c (λ _. s) o policy e w).0
  evaluate_otel_marks o policy e w d runs h is =
      let (pods, listed, found) = h.lists w d in
      let d' = kept.list_pods policy.namespace h.selector w d in
      rw (is, h.selects, listed)
        (evaluate_pods_mark c During kept t0 t1 clock s pod h.otel pods e policy _ d' found runs
          h.loops)

  evaluate_policy_marks :
      (policy : LivelockPolicy S) (e : Engine) (w : W)
      → During w
      → pod.phase ≡ running
      → Catches policy
      → IsMarked t0 t1 pod (evaluate_policy c (λ _. s) policy e w).0
  unfolding evaluate_policy
  evaluate_policy_marks policy e w d runs h =
      evaluate_otel_marks policy.spec.detection.otel policy e w d runs h h.enabled

  evaluate_policies_mark :
      (policies : List (LivelockPolicy S)) (policy : LivelockPolicy S) (e : Engine) (w : W)
      → During w
      → AnyOf (λ x. x ≡ policy) policies
      → pod.phase ≡ running
      → Catches policy
      → IsMarked t0 t1 pod (evaluate_policies c (λ _. s) policies e w).0
  unfolding evaluate_policies evaluate_policy
  evaluate_policies_mark [] policy e w d found runs h = absurd found
  evaluate_policies_mark (other ∷ policies) policy e w d (inl same) runs h =
      let (d', _) = evaluate_otel-Keeps other.spec.detection.otel other e w d in
      let (_, marked) = evaluate_policies-Keeps policies _ _ d' in
      marked (rw same (evaluate_policy_marks policy e w d runs h))
  evaluate_policies_mark (other ∷ policies) policy e w d (inr found) runs h =
      let (d', _) = evaluate_otel-Keeps other.spec.detection.otel other e w d in
      evaluate_policies_mark policies policy _ _ d' found runs h

  pub evaluate_marks :
      (policies : List (LivelockPolicy S)) (policy : LivelockPolicy S) (e : Engine) (w : W)
      → During w
      → (c.list_policies w).0 ≡ ok policies
      → AnyOf (λ x. x ≡ policy) policies
      → pod.phase ≡ running
      → Catches policy
      → IsMarked t0 t1 pod (evaluate c (λ _. s) e w).0.0
  unfolding evaluate
  evaluate_marks policies policy e w d listed found runs h =
      rw listed (evaluate_policies_mark policies policy e _ (kept.list_policies w d) found runs h)
