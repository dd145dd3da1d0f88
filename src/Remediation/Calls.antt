-- ===== src/Remediation/Calls.antt =====
-- A property of the world that every call of the client keeps is kept by a remediation.
use kovern.Prelude.{if◌then◌else◌, Bool-cases, inl, inr, true, false}
use kovern.Prelude.Text.{Text, codes, is_empty}
use kovern.Prelude.Result.{Result, ok, err}
use kovern.Api.{
  LivelockPolicy, RemediationAction, inject_fault, evict_pod, suspend_workload, other_action,
}
use kovern.Cluster.{Pod, ReplicaSet, Deployment}
use kovern.Cluster.Client.{Client}
use kovern.Remediation.{
  owner, message, evict, scale_down, suspend_owner, suspend, fallback, perform, report, mark,
  remediate,
}

module _ {W S P : Type 0} (c : Client W S P) (During : W → Type 0) where
  -- Every call keeps it.
  pub record IsKept : Type 0 where
    pub now : (w : W) → During w → During (c.now w).1
    pub list_policies : (w : W) → During w → During (c.list_policies w).1
    pub list_pods : (ns : Text) (p : P) (w : W) → During w → During (c.list_pods ns p w).1
    pub delete_pod : (pod : Pod) (w : W) → During w → During (c.delete_pod pod w).1
    pub get_replica_set :
        (ns name : Text) (w : W) → During w → During (c.get_replica_set ns name w).1
    pub get_deployment : (ns name : Text) (w : W) → During w → During (c.get_deployment ns name w).1
    pub update_deployment : (d : Deployment) (w : W) → During w → During (c.update_deployment d w).1
    pub update_status : (p : LivelockPolicy S) (w : W) → During w → During (c.update_status p w).1
    pub warn :
        (p : LivelockPolicy S) (reason text : Text) (w : W)
        → During w
        → During (c.warn p reason text w)

  module _ (kept : IsKept) where
    evict-During : (pod : Pod) (w : W) → During w → During (evict c pod w).1
    unfolding evict
    evict-During pod w d = kept.delete_pod pod w d

    scale_down-During :
        (pod : Pod) (name : Text) (r : Result Deployment) (w : W)
        → During w
        → During (scale_down c pod name r w).1
    scale_down-During pod name (err e) w d = d
    scale_down-During pod name (ok deployment) w d = kept.update_deployment _ w d

    suspend_owner-During :
        (pod : Pod) (name : Text) (r : Result ReplicaSet) (w : W)
        → During w
        → During (suspend_owner c pod name r w).1
    suspend_owner-During pod name (err e) w d = d
    suspend_owner-During pod name (ok rs) w d =
        let deployment = owner (codes "Deployment") rs.owner_references in
        elim (Bool-cases (is_empty deployment)) [
          | inl none ↦ rw none (evict-During pod w d)
          | inr some ↦ rw some (
              scale_down-During pod deployment _ _
                (kept.get_deployment pod.namespace deployment w d))
        ]

    suspend-During : (pod : Pod) (w : W) → During w → During (suspend c pod w).1
    unfolding suspend
    suspend-During pod w d =
        let name = owner (codes "ReplicaSet") pod.owner_references in
        elim (Bool-cases (is_empty name)) [
          | inl none ↦ rw none (evict-During pod w d)
          | inr some ↦
              rw some
                (suspend_owner-During pod name _ _ (kept.get_replica_set pod.namespace name w d))
        ]

    fallback-During :
        (a : RemediationAction) (pod : Pod) (w : W) → During w → During (fallback c a pod w).1
    fallback-During suspend_workload pod w d = suspend-During pod w d
    fallback-During evict_pod pod w d = evict-During pod w d
    fallback-During inject_fault pod w d = evict-During pod w d
    fallback-During (other_action a) pod w d = evict-During pod w d

    perform-During :
        (a b : RemediationAction) (pod : Pod) (w : W) → During w → During (perform c a b pod w).1
    unfolding perform
    perform-During evict_pod b pod w d = evict-During pod w d
    perform-During suspend_workload b pod w d = suspend-During pod w d
    perform-During inject_fault b pod w d = fallback-During b pod w d
    perform-During (other_action a) b pod w d = evict-During pod w d

    report-During :
        (policy : LivelockPolicy S) (pod : Pod) (applied : RemediationAction) (w : W)
        → During w
        → During (report c policy.spec.remediation policy pod applied w).1
    report-During policy pod applied w d =
        let text = message pod applied in
        elim policy.spec.remediation.emit_event
          as (λ emits.
            During (if emits then c.warn policy (codes "LivelockDetected") text w else w)) [
              | true ↦ kept.warn policy (codes "LivelockDetected") text w d
              | false ↦ d
            ]

    pub remediate-During :
        (pod : Pod) (policy : LivelockPolicy S) (w : W)
        → During w
        → During (remediate c pod policy w).1
    unfolding remediate mark
    remediate-During pod policy w d =
        let spec = policy.spec.remediation in
        let ((applied, e), w') = perform c spec.action spec.fallback_action pod w in
        let performed = perform-During spec.action spec.fallback_action pod w d in
        let (_, reported) = report c spec policy pod applied w' in
        kept.update_status _ _ (kept.now _ (report-During policy pod applied w' performed))
