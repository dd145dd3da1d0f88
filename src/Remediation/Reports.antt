-- ===== src/Remediation/Reports.antt =====
-- What a remediation did, against what it reports: the calls that change the cluster are recorded by
-- a client around any client.
use mathlib.Core.List.{append_assoc, append-nil}
use kovern.Prelude.{
  ◌≡◌, refl, sym, ◌∙◌, ap, ◌↔◌, Option, none, some, List, [], ◌∷◌, ◌++◌, if◌then◌else◌, Bool-cases,
  inl, inr,
}
use kovern.Prelude.Int.{pos, add64}
use kovern.Prelude.Text.{Text, codes, is_empty}
use kovern.Prelude.Result.{Result, ok, err}
use kovern.Api.{RemediationAction, inject_fault, evict_pod, suspend_workload, LivelockPolicy}
use kovern.Cluster.{Pod, ReplicaSet, Deployment}
use kovern.Cluster.Client.{Client}
use kovern.Remediation.{
  M, owner, Applied, failure, message, evict, scale_down, suspend_owner, suspend, fallback, perform,
  report, mark, remediate,
}

-- The calls that change the cluster or tell the operator of a change, the first two with the
-- API's answer, and the error of a call that was to read an owner.
pub data Effect (S : Type 0) : Type 0 where
  deleted : Pod → Option Text → Effect S
  scaled : Deployment → Option Text → Effect S
  unread_owner : Text → Effect S
  warned : LivelockPolicy S → Text → Effect S
  marked : LivelockPolicy S → Effect S

pub record World (W S : Type 0) : Type 0 where
  pub base : W
  pub log : List (Effect S)

-- Of a call that reads an owner the error is recorded.
abbrev failures : {A S : Type 0} → Result A → List (Effect S)
failures (err e) = unread_owner e ∷ []
failures (ok a) = []

module _ {W S : Type 0} where
  -- A call that is recorded, and one that is not.
  abbrev effectful : {A : Type 0} → (W → A × W) → (A → Effect S) → World W S → A × World W S
  effectful m effect w =
      let (a, b) = m w.base in (a, record { base = b; log = w.log ++ (effect a ∷ []) })

  abbrev reading : {A : Type 0} → (W → Result A × W) → World W S → Result A × World W S
  reading m w = let (a, b) = m w.base in (a, record { base = b; log = w.log ++ failures a })

  abbrev quiet : {A : Type 0} → (W → A × W) → World W S → A × World W S
  quiet m w = let (a, b) = m w.base in (a, record { base = b; log = w.log })

module _ {W S P : Type 0} where
  abbrev pub logged : Client W S P → Client (World W S) S P
  logged c = record {
    now = quiet c.now;
    list_policies = quiet c.list_policies;
    as_selector = c.as_selector;
    list_pods = λ ns p. quiet (c.list_pods ns p);
    delete_pod = λ pod. effectful (c.delete_pod pod) (deleted pod);
    get_replica_set = λ ns name. reading (c.get_replica_set ns name);
    get_deployment = λ ns name. reading (c.get_deployment ns name);
    update_deployment = λ d. effectful (c.update_deployment d) (scaled d);
    update_status = λ policy. effectful (c.update_status policy) (λ _. marked policy);
    warn = λ policy reason text w. record {
      base = c.warn policy reason text w.base;
      log = w.log ++ (warned policy text ∷ []);
    };
  }

module _ {S : Type 0} where
  -- The event that a policy asks for.
  abbrev pub warning_of : LivelockPolicy S → Pod → RemediationAction → List (Effect S)
  warning_of policy pod applied =
      if policy.spec.remediation.emit_event then warned policy (message pod applied) ∷ [] else []

-- The action that is reported, with its error, is the one that was taken: an eviction is one deletion
-- of the pod, and a suspension one update of a deployment to no replicas, each with the error that the
-- API answered, or none; where an owner could not be read, the action is a suspension that does
-- nothing, and its error tells what the API answered.
pub data Performed {S : Type 0} (pod : Pod)
    : RemediationAction → Option Text → List (Effect S) → Type 0 where
  evicted : (e : Option Text) → Performed pod evict_pod e (deleted pod e ∷ [])
  suspended :
      (d : Deployment) (e : Option Text)
      → d.replicas ≡ some (pos 0)
      → Performed pod suspend_workload e (scaled d e ∷ [])
  unread :
      (what x : Text)
      → Performed pod suspend_workload (some (what ++ (codes ": " ++ x))) (unread_owner x ∷ [])

failure-none :
    (action : RemediationAction) (pod : Pod) (e : Option Text)
    → (failure action pod e ≡ none) ↔ (e ≡ none)
failure-none action pod none = (λ _. refl, λ _. refl)
failure-none action pod (some x) = (λ h. cc h, λ h. cc h)

module _ {W S P : Type 0} (c : Client W S P) where
  -- A computation that takes one action and records it.
  abbrev IsTruthful : Pod → M (World W S) Applied → World W S → Type 0
  IsTruthful pod m w =
      (effects : List (Effect S)) × ((m w).1.log ≡ w.log ++ effects)
      × Performed pod (m w).0.0 (m w).0.1 effects

  evict-IsTruthful : (pod : Pod) (w : World W S) → IsTruthful pod (evict (logged c) pod) w
  unfolding evict
  evict-IsTruthful pod w =
      let e = (c.delete_pod pod w.base).0 in (deleted pod e ∷ [], refl, evicted e)

  -- What is left of a suspension after an owner was read adds its effects to those of the reading.
  abbrev IsTruthfulFrom :
      {A : Type 0} → Pod → (Result A → M (World W S) Applied) → Result A → Type 0
  IsTruthfulFrom pod rest r =
      (w : World W S) (w0 : World W S)
      → w.log ≡ w0.log ++ failures r
      → (effects : List (Effect S)) × ((rest r w).1.log ≡ w0.log ++ effects)
        × Performed pod (rest r w).0.0 (rest r w).0.1 effects

  unread_lem :
      (pod : Pod) (what x : Text) (log log0 : List (Effect S))
      → log ≡ log0 ++ (unread_owner x ∷ [])
      → (effects : List (Effect S)) × (log ≡ log0 ++ effects)
        × Performed pod suspend_workload (some (what ++ (codes ": " ++ x))) effects
  unread_lem pod what x log log0 same = (unread_owner x ∷ [], same, unread what x)

  -- An action after a reading that succeeded.
  after_reading :
      (pod : Pod) (m : M (World W S) Applied) (w w0 : World W S)
      → w.log ≡ w0.log ++ []
      → IsTruthful pod m w
      → (effects : List (Effect S)) × ((m w).1.log ≡ w0.log ++ effects)
        × Performed pod (m w).0.0 (m w).0.1 effects
  after_reading pod m w w0 same (effects, log, performed) =
      (effects, log ∙ ap (λ l. l ++ effects) (same ∙ append-nil w0.log), performed)

  scale_down-IsTruthful :
      (pod : Pod) (name : Text) (r : Result Deployment)
      → IsTruthfulFrom pod (scale_down (logged c) pod name) r
  scale_down-IsTruthful pod name (err e) w w0 same =
      unread_lem pod (codes "get deployment " ++ name) e w.log w0.log same
  scale_down-IsTruthful pod name (ok d) w w0 same =
      let d' = record d { replicas = some (pos 0) } in
      let e = (c.update_deployment d' w.base).0 in
      after_reading pod (scale_down (logged c) pod name (ok d)) w w0 same
        (scaled d' e ∷ [], refl, suspended d' e refl)

  suspend_owner-IsTruthful :
      (pod : Pod) (name : Text) (r : Result ReplicaSet)
      → IsTruthfulFrom pod (suspend_owner (logged c) pod name) r
  suspend_owner-IsTruthful pod name (err e) w w0 same =
      unread_lem pod (codes "get replicaset " ++ name) e w.log w0.log same
  suspend_owner-IsTruthful pod name (ok rs) w w0 same =
      let deployment = owner (codes "Deployment") rs.owner_references in
      elim (Bool-cases (is_empty deployment)) [
        | inl none_found ↦
            rw none_found
              (after_reading pod (evict (logged c) pod) w w0 same (evict-IsTruthful pod w))
        | inr found ↦ rw found (
            scale_down-IsTruthful pod deployment _ _ w0 (
              ap (λ l. l ++ failures (c.get_deployment pod.namespace deployment w.base).0)
                (same ∙ append-nil w0.log)))
      ]

  suspend-IsTruthful : (pod : Pod) (w : World W S) → IsTruthful pod (suspend (logged c) pod) w
  unfolding suspend
  suspend-IsTruthful pod w =
      elim (Bool-cases (is_empty (owner (codes "ReplicaSet") pod.owner_references))) [
        | inl none_found ↦ rw none_found (evict-IsTruthful pod w)
        | inr found ↦ rw found (suspend_owner-IsTruthful pod _ _ _ w refl)
      ]

  fallback-IsTruthful :
      (other : RemediationAction) (pod : Pod) (w : World W S)
      → IsTruthful pod (fallback (logged c) other pod) w
  fallback-IsTruthful suspend_workload pod w = suspend-IsTruthful pod w
  fallback-IsTruthful _ pod w = evict-IsTruthful pod w

  perform-IsTruthful :
      (action other : RemediationAction) (pod : Pod) (w : World W S)
      → IsTruthful pod (perform (logged c) action other pod) w
  unfolding perform
  perform-IsTruthful suspend_workload other pod w = suspend-IsTruthful pod w
  perform-IsTruthful inject_fault other pod w = fallback-IsTruthful other pod w
  perform-IsTruthful _ other pod w = evict-IsTruthful pod w

  report-log :
      (policy : LivelockPolicy S) (pod : Pod) (applied : RemediationAction) (w : World W S)
      → (report (logged c) policy.spec.remediation policy pod applied w).1.log
        ≡ w.log ++ warning_of policy pod applied
  report-log policy pod applied w = elim (Bool-cases policy.spec.remediation.emit_event) [
    | inl e ↦ rw e
    | inr e ↦ rw e (sym (append-nil _))
  ]

  -- A remediation takes one action, then sends the event, if the policy asks for one, and then updates
  -- the policy's status once, whatever the API answers. The event names the action that was taken. The
  -- detection count of the policy grows by one, in `int64` arithmetic, and the pod is the last
  -- affected one. The result is an error exactly when the API's answer to the action, or to a read of
  -- an owner that it needed, is one, and names the configured action.
  pub remediate-Performed :
      (pod : Pod) (policy : LivelockPolicy S) (w : World W S)
      → let ((result, policy'), w') = remediate (logged c) pod policy w in
        (applied : RemediationAction) × (e : Option Text) × (effects : List (Effect S)) × Performed
          pod applied e effects
        × (w'.log ≡ w.log ++ (effects ++ (warning_of policy pod applied ++ (marked policy' ∷ []))))
        × (result ≡ failure policy.spec.remediation.action pod e)
        × ((result ≡ none) ↔ (e ≡ none))
        × (policy'.status.detection_count ≡ add64 policy.status.detection_count (pos 1))
        × (policy'.status.last_affected_pod ≡ pod.name)
        × (policy'.spec ≡ policy.spec)
  unfolding remediate mark
  remediate-Performed pod policy w =
      let spec = policy.spec.remediation in
      let ((applied, e), w1) = perform (logged c) spec.action spec.fallback_action pod w in
      let (effects, same, performed) = perform-IsTruthful spec.action spec.fallback_action pod w in
      let told = warning_of policy pod applied in
      let last = marked (remediate (logged c) pod policy w).0.1 ∷ [] in
      (
        applied,
        e,
        effects,
        performed,
        ap (λ l. l ++ last) (report-log policy pod applied w1 ∙ ap (λ l. l ++ told) same)
            ∙ append_assoc (w.log ++ effects) told last
            ∙ append_assoc w.log effects (told ++ last),
        refl,
        failure-none spec.action pod e,
        refl,
        refl,
        refl,
      )
