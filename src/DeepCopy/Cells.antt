-- ===== src/DeepCopy/Cells.antt =====
-- The cells of memory that the custom resources occupy.
use kovern.Prelude.{List, some, none, refl}
use kovern.Time.{Time}
use kovern.Memory.{Slot}
use kovern.Api.{TargetRef, BillingScope, ModelLimit, OtelCriteria, SemanticCriteria, FaultConfig}
use kovern.DeepCopy.Objects.{
  External, StoredDetectionCriteria, StoredRemediationSpec, StoredLivelockPolicyStatus,
  StoredTokenQuotaStatus, StoredTokenQuotaSpec, StoredTokenQuota, StoredTokenQuotaList,
  StoredLivelockPolicySpec, StoredLivelockPolicy, StoredLivelockPolicyList,
}

-- What a cell may hold: whatever some pointer or slice refers to.
pub data Cell (k : External) : Type 0 where
  time_cell : Time → Cell k
  model_limits_cell : List ModelLimit → Cell k
  conditions_cell : List k.Condition → Cell k
  quotas_cell : List (StoredTokenQuota k) → Cell k
  policies_cell : List (StoredLivelockPolicy k) → Cell k
  billing_scope_cell : BillingScope k.Quantity → Cell k
  detection_criteria_cell : StoredDetectionCriteria → Cell k
  fault_config_cell : FaultConfig → Cell k
  livelock_policy_cell : StoredLivelockPolicy k → Cell k
  livelock_policy_list_cell : StoredLivelockPolicyList k → Cell k
  livelock_policy_spec_cell : StoredLivelockPolicySpec k → Cell k
  livelock_policy_status_cell : StoredLivelockPolicyStatus → Cell k
  model_limit_cell : ModelLimit → Cell k
  otel_criteria_cell : OtelCriteria → Cell k
  remediation_spec_cell : StoredRemediationSpec → Cell k
  semantic_criteria_cell : SemanticCriteria → Cell k
  target_ref_cell : TargetRef → Cell k
  token_quota_cell : StoredTokenQuota k → Cell k
  token_quota_list_cell : StoredTokenQuotaList k → Cell k
  token_quota_spec_cell : StoredTokenQuotaSpec k → Cell k
  token_quota_status_cell : StoredTokenQuotaStatus → Cell k
  inner_cell : k.Inner → Cell k

module _ {k : External} where
  abbrev pub time_slot : Slot (Cell k) Time
  time_slot = record {
    hold = time_cell;
    read = λ c. elim c [ time_cell x ↦ some x | _ ↦ none ];
    read-hold = λ x. refl;
  }

  abbrev pub model_limits_slot : Slot (Cell k) (List ModelLimit)
  model_limits_slot = record {
    hold = model_limits_cell;
    read = λ c. elim c [ model_limits_cell x ↦ some x | _ ↦ none ];
    read-hold = λ x. refl;
  }

  abbrev pub conditions_slot : Slot (Cell k) (List k.Condition)
  conditions_slot = record {
    hold = conditions_cell;
    read = λ c. elim c [ conditions_cell x ↦ some x | _ ↦ none ];
    read-hold = λ x. refl;
  }

  abbrev pub quotas_slot : Slot (Cell k) (List (StoredTokenQuota k))
  quotas_slot = record {
    hold = quotas_cell;
    read = λ c. elim c [ quotas_cell x ↦ some x | _ ↦ none ];
    read-hold = λ x. refl;
  }

  abbrev pub policies_slot : Slot (Cell k) (List (StoredLivelockPolicy k))
  policies_slot = record {
    hold = policies_cell;
    read = λ c. elim c [ policies_cell x ↦ some x | _ ↦ none ];
    read-hold = λ x. refl;
  }

  abbrev pub billing_scope_slot : Slot (Cell k) (BillingScope k.Quantity)
  billing_scope_slot = record {
    hold = billing_scope_cell;
    read = λ c. elim c [ billing_scope_cell x ↦ some x | _ ↦ none ];
    read-hold = λ x. refl;
  }

  abbrev pub detection_criteria_slot : Slot (Cell k) StoredDetectionCriteria
  detection_criteria_slot = record {
    hold = detection_criteria_cell;
    read = λ c. elim c [ detection_criteria_cell x ↦ some x | _ ↦ none ];
    read-hold = λ x. refl;
  }

  abbrev pub fault_config_slot : Slot (Cell k) FaultConfig
  fault_config_slot = record {
    hold = fault_config_cell;
    read = λ c. elim c [ fault_config_cell x ↦ some x | _ ↦ none ];
    read-hold = λ x. refl;
  }

  abbrev pub livelock_policy_slot : Slot (Cell k) (StoredLivelockPolicy k)
  livelock_policy_slot = record {
    hold = livelock_policy_cell;
    read = λ c. elim c [ livelock_policy_cell x ↦ some x | _ ↦ none ];
    read-hold = λ x. refl;
  }

  abbrev pub livelock_policy_list_slot : Slot (Cell k) (StoredLivelockPolicyList k)
  livelock_policy_list_slot = record {
    hold = livelock_policy_list_cell;
    read = λ c. elim c [ livelock_policy_list_cell x ↦ some x | _ ↦ none ];
    read-hold = λ x. refl;
  }

  abbrev pub livelock_policy_spec_slot : Slot (Cell k) (StoredLivelockPolicySpec k)
  livelock_policy_spec_slot = record {
    hold = livelock_policy_spec_cell;
    read = λ c. elim c [ livelock_policy_spec_cell x ↦ some x | _ ↦ none ];
    read-hold = λ x. refl;
  }

  abbrev pub livelock_policy_status_slot : Slot (Cell k) StoredLivelockPolicyStatus
  livelock_policy_status_slot = record {
    hold = livelock_policy_status_cell;
    read = λ c. elim c [ livelock_policy_status_cell x ↦ some x | _ ↦ none ];
    read-hold = λ x. refl;
  }

  abbrev pub model_limit_slot : Slot (Cell k) ModelLimit
  model_limit_slot = record {
    hold = model_limit_cell;
    read = λ c. elim c [ model_limit_cell x ↦ some x | _ ↦ none ];
    read-hold = λ x. refl;
  }

  abbrev pub otel_criteria_slot : Slot (Cell k) OtelCriteria
  otel_criteria_slot = record {
    hold = otel_criteria_cell;
    read = λ c. elim c [ otel_criteria_cell x ↦ some x | _ ↦ none ];
    read-hold = λ x. refl;
  }

  abbrev pub remediation_spec_slot : Slot (Cell k) StoredRemediationSpec
  remediation_spec_slot = record {
    hold = remediation_spec_cell;
    read = λ c. elim c [ remediation_spec_cell x ↦ some x | _ ↦ none ];
    read-hold = λ x. refl;
  }

  abbrev pub semantic_criteria_slot : Slot (Cell k) SemanticCriteria
  semantic_criteria_slot = record {
    hold = semantic_criteria_cell;
    read = λ c. elim c [ semantic_criteria_cell x ↦ some x | _ ↦ none ];
    read-hold = λ x. refl;
  }

  abbrev pub target_ref_slot : Slot (Cell k) TargetRef
  target_ref_slot = record {
    hold = target_ref_cell;
    read = λ c. elim c [ target_ref_cell x ↦ some x | _ ↦ none ];
    read-hold = λ x. refl;
  }

  abbrev pub token_quota_slot : Slot (Cell k) (StoredTokenQuota k)
  token_quota_slot = record {
    hold = token_quota_cell;
    read = λ c. elim c [ token_quota_cell x ↦ some x | _ ↦ none ];
    read-hold = λ x. refl;
  }

  abbrev pub token_quota_list_slot : Slot (Cell k) (StoredTokenQuotaList k)
  token_quota_list_slot = record {
    hold = token_quota_list_cell;
    read = λ c. elim c [ token_quota_list_cell x ↦ some x | _ ↦ none ];
    read-hold = λ x. refl;
  }

  abbrev pub token_quota_spec_slot : Slot (Cell k) (StoredTokenQuotaSpec k)
  token_quota_spec_slot = record {
    hold = token_quota_spec_cell;
    read = λ c. elim c [ token_quota_spec_cell x ↦ some x | _ ↦ none ];
    read-hold = λ x. refl;
  }

  abbrev pub token_quota_status_slot : Slot (Cell k) StoredTokenQuotaStatus
  token_quota_status_slot = record {
    hold = token_quota_status_cell;
    read = λ c. elim c [ token_quota_status_cell x ↦ some x | _ ↦ none ];
    read-hold = λ x. refl;
  }
