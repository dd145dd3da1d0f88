-- ===== src/DeepCopy/Views.antt =====
-- What stored custom resources stand for: the values of the module Api, with the metadata and the
-- conditions that those leave out.
use kovern.Prelude.{List, Bool}
use kovern.Prelude.Int.{ℤ}
use kovern.Prelude.Text.{Text}
use kovern.Memory.Layouts.{Layout, plain, field, ◌&◌, address, optional, slice, items}
use kovern.Memory.Copies.{Copies}
use kovern.Api.{
  BillingScope, TokenQuotaSpec, TokenQuotaStatus, DetectionCriteria, RemediationSpec,
  LivelockPolicySpec, LivelockPolicyStatus, RemediationAction, RenewalInterval, TargetRef,
  EnforcementAction, QuotaState,
}
use kovern.DeepCopy.{Copiers}
use kovern.DeepCopy.Objects.{
  External, Slice, StoredDetectionCriteria, StoredRemediationSpec, StoredLivelockPolicyStatus,
  StoredTokenQuotaStatus, StoredTokenQuotaSpec, StoredTokenQuota, StoredTokenQuotaList,
  StoredLivelockPolicySpec, StoredLivelockPolicy, StoredLivelockPolicyList,
}
use kovern.DeepCopy.Cells.{
  Cell, time_slot, model_limits_slot, conditions_slot, quotas_slot, policies_slot,
  fault_config_slot, otel_criteria_slot, semantic_criteria_slot,
}

-- What Kubernetes' own types stand for.
pub record Views (k : External) (Q D L C S : Type 0) : Type 1 where
  pub quantity : Layout (Cell k) k.Quantity Q
  pub object_meta : Layout (Cell k) k.ObjectMeta D
  pub list_meta : Layout (Cell k) k.ListMeta L
  pub condition : Layout (Cell k) k.Condition C
  pub label_selector : Layout (Cell k) k.LabelSelector S

abbrev pub QuotaView : External → (Q D C : Type 0) → Type 0
QuotaView k Q D C = k.TypeMeta × D × TokenQuotaSpec Q × TokenQuotaStatus × List C

abbrev pub PolicyView : External → (D C S : Type 0) → Type 0
PolicyView k D C S = k.TypeMeta × D × LivelockPolicySpec S × LivelockPolicyStatus × List C

module _ {k : External} where
  abbrev pub detection_criteria : Layout (Cell k) StoredDetectionCriteria DetectionCriteria
  detection_criteria =
      field (optional (address otel_criteria_slot plain)) (λ x. x.otel) (λ t. t.otel)
      & field (optional (address semantic_criteria_slot plain)) (λ x. x.semantic) (λ t. t.semantic)

  abbrev pub remediation_spec : Layout (Cell k) StoredRemediationSpec RemediationSpec
  remediation_spec =
      field {A = RemediationAction × RemediationAction × Bool × Bool} plain
        (λ x. (x.action, x.fallback_action, x.emit_event, x.gitops_incident))
        (λ t. (t.action, t.fallback_action, t.emit_event, t.gitops_incident))
      & field (optional (address fault_config_slot plain)) (λ x. x.fault_config)
          (λ t. t.fault_config)

module _ {k : External} {Q D L C S : Type 0} (v : Views k Q D L C S) where
  abbrev pub billing_scope : Layout (Cell k) (BillingScope k.Quantity) (BillingScope Q)
  billing_scope =
      field {A = Text × RenewalInterval × ℤ} plain
        (λ x. (x.currency, x.renewal_interval, x.soft_limit_pct))
        (λ t. (t.currency, t.renewal_interval, t.soft_limit_pct))
      & field v.quantity (λ x. x.max_financial_budget) (λ t. t.max_financial_budget)

  abbrev pub token_quota_spec : Layout (Cell k) (StoredTokenQuotaSpec k) (TokenQuotaSpec Q)
  token_quota_spec =
      field {A = TargetRef × EnforcementAction} plain (λ x. (x.target_ref, x.enforcement_action))
        (λ t. (t.target_ref, t.enforcement_action))
      & field billing_scope (λ x. x.billing_scope) (λ t. t.billing_scope)
      & field (slice (address model_limits_slot plain)) (λ x. x.limits) (λ t. t.limits)

  abbrev pub conditions_slice : Layout (Cell k) Slice (List C)
  conditions_slice = slice (address conditions_slot (items v.condition))

  abbrev pub token_quota_status : Layout (Cell k) StoredTokenQuotaStatus (TokenQuotaStatus × List C)
  token_quota_status =
      field {A = Text × ℤ × ℤ × QuotaState} plain
        (λ x. (x.spent_usd, x.spent_tokens, x.run_count, x.state))
        (λ t. (t.0.spent_usd, t.0.spent_tokens, t.0.run_count, t.0.state))
      & field (optional (address time_slot plain)) (λ x. x.last_updated) (λ t. t.0.last_updated)
      & field (optional (address time_slot plain)) (λ x. x.next_renewal) (λ t. t.0.next_renewal)
      & field conditions_slice (λ x. x.conditions) (λ t. t.1)

  abbrev pub token_quota : Layout (Cell k) (StoredTokenQuota k) (QuotaView k Q D C)
  token_quota =
      field plain (λ x. x.type_meta) (λ t. t.0)
      & field v.object_meta (λ x. x.object_meta) (λ t. t.1)
      & field token_quota_spec (λ x. x.spec) (λ t. t.2)
      & field token_quota_status (λ x. x.status) (λ t. (t.3, t.4))

  abbrev pub token_quota_list :
      Layout (Cell k) (StoredTokenQuotaList k) (k.TypeMeta × L × List (QuotaView k Q D C))
  token_quota_list =
      field plain (λ x. x.type_meta) (λ t. t.0)
      & field v.list_meta (λ x. x.list_meta) (λ t. t.1)
      & field (slice (address quotas_slot (items token_quota))) (λ x. x.items) (λ t. t.2)

  abbrev pub livelock_policy_spec :
      Layout (Cell k) (StoredLivelockPolicySpec k) (LivelockPolicySpec S)
  livelock_policy_spec =
      field v.label_selector (λ x. x.selector) (λ t. t.selector)
      & field detection_criteria (λ x. x.detection) (λ t. t.detection)
      & field remediation_spec (λ x. x.remediation) (λ t. t.remediation)

  abbrev pub livelock_policy_status :
      Layout (Cell k) StoredLivelockPolicyStatus (LivelockPolicyStatus × List C)
  livelock_policy_status =
      field {A = ℤ × Text} plain (λ x. (x.detection_count, x.last_affected_pod))
        (λ t. (t.0.detection_count, t.0.last_affected_pod))
      & field (optional (address time_slot plain)) (λ x. x.last_detection) (λ t. t.0.last_detection)
      & field conditions_slice (λ x. x.conditions) (λ t. t.1)

  abbrev pub livelock_policy : Layout (Cell k) (StoredLivelockPolicy k) (PolicyView k D C S)
  livelock_policy =
      field plain (λ x. x.type_meta) (λ t. t.0)
      & field v.object_meta (λ x. x.object_meta) (λ t. t.1)
      & field livelock_policy_spec (λ x. x.spec) (λ t. t.2)
      & field livelock_policy_status (λ x. x.status) (λ t. (t.3, t.4))

  abbrev pub livelock_policy_list :
      Layout (Cell k) (StoredLivelockPolicyList k) (k.TypeMeta × L × List (PolicyView k D C S))
  livelock_policy_list =
      field plain (λ x. x.type_meta) (λ t. t.0)
      & field v.list_meta (λ x. x.list_meta) (λ t. t.1)
      & field (slice (address policies_slot (items livelock_policy))) (λ x. x.items) (λ t. t.2)

  -- The deep copies of Kubernetes' own types are what their documentation says.
  pub record AreDeep (c : Copiers k) : Type 0 where
    pub quantity : Copies v.quantity c.quantity
    pub object_meta : Copies v.object_meta c.object_meta
    pub list_meta : Copies v.list_meta c.list_meta
    pub condition : Copies v.condition c.condition
    pub label_selector : Copies v.label_selector c.label_selector
    pub time : Copies (address time_slot plain) c.time
