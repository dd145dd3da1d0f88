-- ===== src/Operator/Evaluations.antt =====
-- An evaluation by the engine as a run of the operator's steps: one step for each pod.
use kovern.Prelude.{Bool, Option, none, some, List, [], ◌∷◌}
use kovern.Prelude.Int.{ℤ}
use kovern.Prelude.Result.{Result, ok, err}
use kovern.Float.{Float64}
use kovern.Api.{LivelockPolicy, OtelCriteria}
use kovern.Ledger.Runs.{Call}
use kovern.Heuristic.{
  Engine, evaluate_pod, evaluate_pods, evaluate_listed, evaluate_selected, evaluate_otel,
  evaluate_policy, evaluate_policies, evaluate_result, evaluate,
}
use kovern.Cluster.{Pod}
use kovern.Cluster.Client.{Client}
use kovern.Operator.{System}
use kovern.Operator.Steps.{Step, Steps, only, join}

module _ {F K S P Q : Type 0} ⦃f : Float64 F⦄ (client : Client K S P) (as_int64 : Q → ℤ × Bool)
    (Allowed : Call F Q → Type 0) where
  abbrev Run : System F K → System F K → Type 0
  Run = Steps client as_int64 Allowed

  -- The system after the engine's part of it.
  abbrev after : System F K → Engine × K → System F K
  after s (e, k) = record s { cluster = k; engine = e }

  moves : (s : System F K) (k : K) → Run s (after s (s.engine, k))
  moves s k = only client as_int64 Allowed (Step.elsewhere k)

  evaluate_pods-Run :
      (otel : OtelCriteria) (pods : List Pod) (policy : LivelockPolicy S) (s : System F K)
      → let ((e, policy'), k) =
          evaluate_pods client (λ _. s.spans) otel pods s.engine policy s.cluster in
        Run s (after s (e, k))
  unfolding evaluate_pods
  evaluate_pods-Run otel [] policy s = Steps.here
  evaluate_pods-Run otel (pod ∷ pods) policy s =
      let ((e, policy'), k) =
        evaluate_pod client (λ _. s.spans) otel pod s.engine policy s.cluster in
      join client as_int64 Allowed (only client as_int64 Allowed (Step.examines otel pod policy))
        (evaluate_pods-Run otel pods policy' (after s (e, k)))

  evaluate_listed-Run :
      (otel : OtelCriteria) (policy : LivelockPolicy S) (r : Result (List Pod)) (s : System F K)
      → Run s (after s (evaluate_listed client (λ _. s.spans) otel policy s.engine r s.cluster))
  evaluate_listed-Run otel policy (err x) s = Steps.here
  evaluate_listed-Run otel policy (ok pods) s = evaluate_pods-Run otel pods policy s

  evaluate_selected-Run :
      (otel : OtelCriteria) (policy : LivelockPolicy S) (r : Result P) (s : System F K)
      → Run s (after s (evaluate_selected client (λ _. s.spans) otel policy s.engine r s.cluster))
  evaluate_selected-Run otel policy (err x) s = Steps.here
  evaluate_selected-Run otel policy (ok selector) s =
      let (r, k) = client.list_pods policy.namespace selector s.cluster in
      join client as_int64 Allowed (moves s k)
        (evaluate_listed-Run otel policy r (after s (s.engine, k)))

  evaluate_otel-Run :
      (o : Option OtelCriteria) (policy : LivelockPolicy S) (s : System F K)
      → Run s (after s (evaluate_otel client (λ _. s.spans) o policy s.engine s.cluster))
  evaluate_otel-Run none policy s = Steps.here
  evaluate_otel-Run (some otel) policy s =
      evaluate_selected-Run otel policy (client.as_selector policy.spec.selector) s

  evaluate_policies-Run :
      (policies : List (LivelockPolicy S)) (s : System F K)
      → Run s (after s (evaluate_policies client (λ _. s.spans) policies s.engine s.cluster))
  unfolding evaluate_policies evaluate_policy
  evaluate_policies-Run [] s = Steps.here
  evaluate_policies-Run (policy ∷ policies) s =
      join client as_int64 Allowed (evaluate_otel-Run policy.spec.detection.otel policy s)
        (evaluate_policies-Run policies _)

  evaluate_result-Run :
      (r : Result (List (LivelockPolicy S))) (s : System F K)
      → let ((e, failed), k) = evaluate_result client (λ _. s.spans) s.engine r s.cluster in
        Run s (after s (e, k))
  evaluate_result-Run (err x) s = Steps.here
  evaluate_result-Run (ok policies) s = evaluate_policies-Run policies s

  pub evaluate-Run :
      (s : System F K)
      → let ((e, failed), k) = evaluate client (λ _. s.spans) s.engine s.cluster in
        Run s (after s (e, k))
  unfolding evaluate
  evaluate-Run s =
      let (r, k) = client.list_policies s.cluster in
      join client as_int64 Allowed (moves s k) (evaluate_result-Run r (after s (s.engine, k)))
