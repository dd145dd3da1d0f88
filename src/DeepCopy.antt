-- ===== src/DeepCopy.antt =====
-- api/v1alpha1/zz_generated_deepcopy.go: the deep copies of the custom resources, by which the
-- Kubernetes client hands out objects of its cache that the operator then changes in place.
-- `DeepCopyInto` becomes a function from the structure that it reads to the one that it writes;
-- the deep copies of Kubernetes' own types are a parameter.
pub mod Objects
pub mod Cells
pub mod Views
pub mod Quotas
pub mod Policies
pub mod Separation
pub mod Package
use kovern.Prelude.{ℕ, Option, none, some}
use kovern.Memory.{Run, pure, ◌>>=◌, copy_pointer, if_set, copy_items}
use kovern.Api.{TargetRef, BillingScope, ModelLimit, OtelCriteria, SemanticCriteria, FaultConfig}
use kovern.DeepCopy.Objects.{
  External, Pointer, Object, a_token_quota, a_token_quota_list, a_livelock_policy,
  a_livelock_policy_list, StoredDetectionCriteria, StoredRemediationSpec,
  StoredLivelockPolicyStatus, StoredTokenQuotaStatus, StoredTokenQuotaSpec, StoredTokenQuota,
  StoredTokenQuotaList, StoredLivelockPolicySpec, StoredLivelockPolicy, StoredLivelockPolicyList,
}
use kovern.DeepCopy.Cells.{
  Cell, time_slot, model_limits_slot, conditions_slot, quotas_slot, policies_slot,
  billing_scope_slot, detection_criteria_slot, fault_config_slot, livelock_policy_slot,
  livelock_policy_list_slot, livelock_policy_spec_slot, livelock_policy_status_slot,
  model_limit_slot, otel_criteria_slot, remediation_spec_slot, semantic_criteria_slot,
  target_ref_slot, token_quota_slot, token_quota_list_slot, token_quota_spec_slot,
  token_quota_status_slot,
}

-- The deep copies of Kubernetes' own types; that of a time takes a pointer and gives one.
pub record Copiers (k : External) : Type 0 where
  pub quantity : k.Quantity → Run (Cell k) k.Quantity
  pub object_meta : k.ObjectMeta → Run (Cell k) k.ObjectMeta
  pub list_meta : k.ListMeta → Run (Cell k) k.ListMeta
  pub condition : k.Condition → Run (Cell k) k.Condition
  pub label_selector : k.LabelSelector → Run (Cell k) k.LabelSelector
  pub time : ℕ → Run (Cell k) ℕ

module _ {k : External} where
  unfoldable pub fault_config_into : FaultConfig → Run (Cell k) FaultConfig
  fault_config_into x = pure x

  unfoldable pub fault_config_copy : Pointer → Run (Cell k) Pointer
  fault_config_copy = if_set (copy_pointer fault_config_slot fault_config_into)

  unfoldable pub model_limit_into : ModelLimit → Run (Cell k) ModelLimit
  model_limit_into x = pure x

  unfoldable pub model_limit_copy : Pointer → Run (Cell k) Pointer
  model_limit_copy = if_set (copy_pointer model_limit_slot model_limit_into)

  unfoldable pub otel_criteria_into : OtelCriteria → Run (Cell k) OtelCriteria
  otel_criteria_into x = pure x

  unfoldable pub otel_criteria_copy : Pointer → Run (Cell k) Pointer
  otel_criteria_copy = if_set (copy_pointer otel_criteria_slot otel_criteria_into)

  unfoldable pub semantic_criteria_into : SemanticCriteria → Run (Cell k) SemanticCriteria
  semantic_criteria_into x = pure x

  unfoldable pub semantic_criteria_copy : Pointer → Run (Cell k) Pointer
  semantic_criteria_copy = if_set (copy_pointer semantic_criteria_slot semantic_criteria_into)

  unfoldable pub target_ref_into : TargetRef → Run (Cell k) TargetRef
  target_ref_into x = pure x

  unfoldable pub target_ref_copy : Pointer → Run (Cell k) Pointer
  target_ref_copy = if_set (copy_pointer target_ref_slot target_ref_into)

  unfoldable pub detection_criteria_into :
      StoredDetectionCriteria → Run (Cell k) StoredDetectionCriteria
  detection_criteria_into x = do
    otel ← if_set (copy_pointer otel_criteria_slot pure) x.otel
    semantic ← if_set (copy_pointer semantic_criteria_slot pure) x.semantic
    pure (record x { otel = otel; semantic = semantic })

  unfoldable pub detection_criteria_copy : Pointer → Run (Cell k) Pointer
  detection_criteria_copy = if_set (copy_pointer detection_criteria_slot detection_criteria_into)

  unfoldable pub remediation_spec_into : StoredRemediationSpec → Run (Cell k) StoredRemediationSpec
  remediation_spec_into x = do
    fault ← if_set (copy_pointer fault_config_slot pure) x.fault_config
    pure (record x { fault_config = fault })

  unfoldable pub remediation_spec_copy : Pointer → Run (Cell k) Pointer
  remediation_spec_copy = if_set (copy_pointer remediation_spec_slot remediation_spec_into)

module _ {k : External} (c : Copiers k) where
  unfoldable pub billing_scope_into :
      BillingScope k.Quantity → Run (Cell k) (BillingScope k.Quantity)
  billing_scope_into x = do
    max ← c.quantity x.max_financial_budget
    pure (record x { max_financial_budget = max })

  unfoldable pub billing_scope_copy : Pointer → Run (Cell k) Pointer
  billing_scope_copy = if_set (copy_pointer billing_scope_slot billing_scope_into)

  unfoldable pub livelock_policy_spec_into :
      StoredLivelockPolicySpec k → Run (Cell k) (StoredLivelockPolicySpec k)
  livelock_policy_spec_into x = do
    selector ← c.label_selector x.selector
    detection ← detection_criteria_into x.detection
    remediation ← remediation_spec_into x.remediation
    pure (record x { selector = selector; detection = detection; remediation = remediation })

  unfoldable pub livelock_policy_spec_copy : Pointer → Run (Cell k) Pointer
  livelock_policy_spec_copy =
      if_set (copy_pointer livelock_policy_spec_slot livelock_policy_spec_into)

  unfoldable pub livelock_policy_status_into :
      StoredLivelockPolicyStatus → Run (Cell k) StoredLivelockPolicyStatus
  livelock_policy_status_into x = do
    last ← if_set c.time x.last_detection
    conditions ← if_set (copy_pointer conditions_slot (copy_items c.condition)) x.conditions
    pure (record x { last_detection = last; conditions = conditions })

  unfoldable pub livelock_policy_status_copy : Pointer → Run (Cell k) Pointer
  livelock_policy_status_copy =
      if_set (copy_pointer livelock_policy_status_slot livelock_policy_status_into)

  unfoldable pub livelock_policy_into :
      StoredLivelockPolicy k → Run (Cell k) (StoredLivelockPolicy k)
  livelock_policy_into x = do
    object_meta ← c.object_meta x.object_meta
    spec ← livelock_policy_spec_into x.spec
    status ← livelock_policy_status_into x.status
    pure (record x { object_meta = object_meta; spec = spec; status = status })

  unfoldable pub livelock_policy_copy : Pointer → Run (Cell k) Pointer
  livelock_policy_copy = if_set (copy_pointer livelock_policy_slot livelock_policy_into)

  abbrev livelock_policy_as_object : Pointer → Run (Cell k) (Option Object)
  livelock_policy_as_object none = pure none
  livelock_policy_as_object (some p) = pure (some (a_livelock_policy p))

  unfoldable pub livelock_policy_copy_object : Pointer → Run (Cell k) (Option Object)
  livelock_policy_copy_object p = do c ← livelock_policy_copy p; livelock_policy_as_object c

  unfoldable pub livelock_policy_list_into :
      StoredLivelockPolicyList k → Run (Cell k) (StoredLivelockPolicyList k)
  livelock_policy_list_into x = do
    list_meta ← c.list_meta x.list_meta
    items ← if_set (copy_pointer policies_slot (copy_items livelock_policy_into)) x.items
    pure (record x { list_meta = list_meta; items = items })

  unfoldable pub livelock_policy_list_copy : Pointer → Run (Cell k) Pointer
  livelock_policy_list_copy =
      if_set (copy_pointer livelock_policy_list_slot livelock_policy_list_into)

  abbrev livelock_policy_list_as_object : Pointer → Run (Cell k) (Option Object)
  livelock_policy_list_as_object none = pure none
  livelock_policy_list_as_object (some p) = pure (some (a_livelock_policy_list p))

  unfoldable pub livelock_policy_list_copy_object : Pointer → Run (Cell k) (Option Object)
  livelock_policy_list_copy_object p = do
    c ← livelock_policy_list_copy p
    livelock_policy_list_as_object c

  unfoldable pub token_quota_spec_into :
      StoredTokenQuotaSpec k → Run (Cell k) (StoredTokenQuotaSpec k)
  token_quota_spec_into x = do
    scope ← billing_scope_into x.billing_scope
    limits ← if_set (copy_pointer model_limits_slot pure) x.limits
    pure (record x { billing_scope = scope; limits = limits })

  unfoldable pub token_quota_spec_copy : Pointer → Run (Cell k) Pointer
  token_quota_spec_copy = if_set (copy_pointer token_quota_spec_slot token_quota_spec_into)

  unfoldable pub token_quota_status_into :
      StoredTokenQuotaStatus → Run (Cell k) StoredTokenQuotaStatus
  token_quota_status_into x = do
    updated ← if_set c.time x.last_updated
    renewal ← if_set c.time x.next_renewal
    conditions ← if_set (copy_pointer conditions_slot (copy_items c.condition)) x.conditions
    pure (record x { last_updated = updated; next_renewal = renewal; conditions = conditions })

  unfoldable pub token_quota_status_copy : Pointer → Run (Cell k) Pointer
  token_quota_status_copy = if_set (copy_pointer token_quota_status_slot token_quota_status_into)

  unfoldable pub token_quota_into : StoredTokenQuota k → Run (Cell k) (StoredTokenQuota k)
  token_quota_into x = do
    object_meta ← c.object_meta x.object_meta
    spec ← token_quota_spec_into x.spec
    status ← token_quota_status_into x.status
    pure (record x { object_meta = object_meta; spec = spec; status = status })

  unfoldable pub token_quota_copy : Pointer → Run (Cell k) Pointer
  token_quota_copy = if_set (copy_pointer token_quota_slot token_quota_into)

  abbrev token_quota_as_object : Pointer → Run (Cell k) (Option Object)
  token_quota_as_object none = pure none
  token_quota_as_object (some p) = pure (some (a_token_quota p))

  unfoldable pub token_quota_copy_object : Pointer → Run (Cell k) (Option Object)
  token_quota_copy_object p = do c ← token_quota_copy p; token_quota_as_object c

  unfoldable pub token_quota_list_into :
      StoredTokenQuotaList k → Run (Cell k) (StoredTokenQuotaList k)
  token_quota_list_into x = do
    list_meta ← c.list_meta x.list_meta
    items ← if_set (copy_pointer quotas_slot (copy_items token_quota_into)) x.items
    pure (record x { list_meta = list_meta; items = items })

  unfoldable pub token_quota_list_copy : Pointer → Run (Cell k) Pointer
  token_quota_list_copy = if_set (copy_pointer token_quota_list_slot token_quota_list_into)

  abbrev token_quota_list_as_object : Pointer → Run (Cell k) (Option Object)
  token_quota_list_as_object none = pure none
  token_quota_list_as_object (some p) = pure (some (a_token_quota_list p))

  unfoldable pub token_quota_list_copy_object : Pointer → Run (Cell k) (Option Object)
  token_quota_list_copy_object p = do c ← token_quota_list_copy p; token_quota_list_as_object c
