-- ===== src/Remediation.antt =====
-- internal/remediation/executor.go: the actions taken when a loop is detected.
pub mod Reports
pub mod Calls
use kovern.Prelude.{Bool, true, false, Option, none, some, List, [], ◌∷◌, ◌++◌, if◌then◌else◌}
use kovern.Prelude.Int.{ℤ, pos, add64}
use kovern.Prelude.Text.{Text, codes, text_eq, is_empty}
use kovern.Prelude.Result.{Result, ok, err}
use kovern.Time.{Time}
use kovern.Api
use kovern.Api.{
  RemediationAction, inject_fault, evict_pod, suspend_workload, LivelockPolicy, RemediationSpec,
}
use kovern.Cluster.{OwnerReference, Pod, ReplicaSet, Deployment}
use kovern.Cluster.Client.{Client}

-- A computation on the state of the world.
abbrev pub M : Type 0 → Type 0 → Type 0
M W A = W → A × W

infixl 5 ◌>>=◌
abbrev pub ◌>>=◌ : {W A B : Type 0} → M W A → (A → M W B) → M W B
◌>>=◌ m g w = let (a, w') = m w in g a w'

abbrev pub pure : {W A : Type 0} → A → M W A
pure a w = (a, w)

abbrev pub action_text : RemediationAction → Text
action_text inject_fault = codes "InjectFault"
action_text evict_pod = codes "EvictPod"
action_text suspend_workload = codes "SuspendWorkload"
action_text (Api.other_action s) = s

-- The name of the first owner of the kind, or the empty text.
unfoldable pub owner : Text → List OwnerReference → Text
owner kind [] = []
owner kind (ref ∷ refs) = if text_eq ref.kind kind then ref.name else owner kind refs

-- The action that was taken, and its error.
abbrev pub Applied : Type 0
Applied = RemediationAction × Option Text

abbrev wrapped : Text → Text → Text
wrapped what cause = what ++ (codes ": " ++ cause)

abbrev slashed : Text → Text → Text
slashed a b = a ++ (b'/' ∷ b)

-- The error of `Remediate`, from that of the action.
abbrev pub failure : RemediationAction → Pod → Option Text → Option Text
failure action pod none = none
failure action pod (some e) = some (
    wrapped
      (codes "remediation "
        ++ (action_text action ++ (codes " failed for " ++ slashed pod.namespace pod.name)))
      e)

abbrev pub message : Pod → RemediationAction → Text
message pod applied =
    codes "livelock detected on pod "
    ++ (slashed pod.namespace pod.name ++ (codes " — applied " ++ action_text applied))

module _ {W S P : Type 0} (c : Client W S P) where
  unfoldable pub evict : Pod → M W Applied
  evict pod = do e ← c.delete_pod pod; pure (evict_pod, e)

  abbrev scale_down : Pod → Text → Result Deployment → M W Applied
  scale_down pod name (err e) =
      pure (suspend_workload, some (wrapped (codes "get deployment " ++ name) e))
  scale_down pod name (ok d) = do
    e ← c.update_deployment (record d { replicas = some (pos 0) })
    pure (suspend_workload, e)

  abbrev suspend_owner : Pod → Text → Result ReplicaSet → M W Applied
  suspend_owner pod name (err e) =
      pure (suspend_workload, some (wrapped (codes "get replicaset " ++ name) e))
  suspend_owner pod name (ok rs) =
      let deployment = owner (codes "Deployment") rs.owner_references in
      if is_empty deployment
      then evict pod
      else (do d ← c.get_deployment pod.namespace deployment; scale_down pod deployment d)

  -- `suspendWorkload`
  unfoldable pub suspend : Pod → M W Applied
  suspend pod =
      let name = owner (codes "ReplicaSet") pod.owner_references in
      if is_empty name
      then evict pod
      else (do rs ← c.get_replica_set pod.namespace name; suspend_owner pod name rs)

  abbrev fallback : RemediationAction → Pod → M W Applied
  fallback suspend_workload pod = suspend pod
  fallback _ pod = evict pod

  -- The `switch` over the configured action.
  unfoldable pub perform : RemediationAction → RemediationAction → Pod → M W Applied
  perform evict_pod other pod = evict pod
  perform suspend_workload other pod = suspend pod
  perform inject_fault other pod = fallback other pod
  perform _ other pod = evict pod

  abbrev report : RemediationSpec → LivelockPolicy S → Pod → RemediationAction → M W (Unit {0})
  report spec policy pod applied w = (
    tt,
    if spec.emit_event then c.warn policy (codes "LivelockDetected") (message pod applied) w else w,
  )

  -- `updateStatus`; the policy is changed in place, whether or not the API takes the update, whose
  -- error is only logged.
  unfoldable pub mark : LivelockPolicy S → Text → M W (LivelockPolicy S)
  mark policy pod_name = do
    now ← c.now
    let policy' : LivelockPolicy S = record policy {
      status = record policy.status {
        detection_count = add64 policy.status.detection_count (pos 1);
        last_detection = some now;
        last_affected_pod = pod_name;
      };
    }
    _ ← c.update_status policy'
    pure policy'

  -- `Remediate`: its error, and the policy as it left it.
  unfoldable pub remediate : Pod → LivelockPolicy S → M W (Option Text × LivelockPolicy S)
  remediate pod policy = do
    let spec = policy.spec.remediation
    (applied, e) ← perform spec.action spec.fallback_action pod
    _ ← report spec policy pod applied
    policy' ← mark policy pod.name
    pure (failure spec.action pod e, policy')
