-- ===== src/DeepCopy/Package.antt =====
-- All deep copies of the package.
use kovern.Memory.{copy_pointer, if_set, Run, Slot, pure}
use kovern.Memory.Layouts.{Layout, plain, address, optional}
use kovern.Memory.Copies.{Copies, pure-Copies, copy_pointer-Copies, if_set-Copies}
use kovern.DeepCopy.{
  Copiers, billing_scope_copy, detection_criteria_copy, fault_config_copy, livelock_policy_copy,
  livelock_policy_list_copy, livelock_policy_spec_copy, livelock_policy_status_copy,
  model_limit_copy, otel_criteria_copy, remediation_spec_copy, semantic_criteria_copy,
  target_ref_copy, token_quota_copy, token_quota_list_copy, token_quota_spec_copy,
  token_quota_status_copy, billing_scope_into, detection_criteria_into, fault_config_into,
  livelock_policy_into, livelock_policy_list_into, livelock_policy_spec_into,
  livelock_policy_status_into, model_limit_into, otel_criteria_into, remediation_spec_into,
  semantic_criteria_into, target_ref_into, token_quota_into, token_quota_list_into,
  token_quota_spec_into, token_quota_status_into,
}
use kovern.DeepCopy.Objects.{External, Pointer}
use kovern.DeepCopy.Cells.{
  Cell, billing_scope_slot, detection_criteria_slot, fault_config_slot, livelock_policy_slot,
  livelock_policy_list_slot, livelock_policy_spec_slot, livelock_policy_status_slot,
  model_limit_slot, otel_criteria_slot, remediation_spec_slot, semantic_criteria_slot,
  target_ref_slot, token_quota_slot, token_quota_list_slot, token_quota_spec_slot,
  token_quota_status_slot,
}
use kovern.DeepCopy.Views.{
  Views, AreDeep, billing_scope, detection_criteria, livelock_policy, livelock_policy_list,
  livelock_policy_spec, livelock_policy_status, remediation_spec, token_quota, token_quota_list,
  token_quota_spec, token_quota_status,
}
use kovern.DeepCopy.Quotas.{
  billing_scope_into-Copies, token_quota_into-Copies, token_quota_list_into-Copies,
  token_quota_spec_into-Copies, token_quota_status_into-Copies,
}
use kovern.DeepCopy.Policies.{
  detection_criteria_into-Copies, livelock_policy_into-Copies, livelock_policy_list_into-Copies,
  livelock_policy_spec_into-Copies, livelock_policy_status_into-Copies,
  remediation_spec_into-Copies,
}

module _ {k : External} where
  -- A routine for pointers, nil or not, makes deep copies.
  abbrev pub CopiesAt :
      {A V : Type 0}
      → Slot (Cell k) A
      → Layout (Cell k) A V
      → (Pointer → Run (Cell k) Pointer)
      → Type 0
  CopiesAt s l f = Copies (optional (address s l)) f

  of_into :
      {A V : Type 0} (s : Slot (Cell k) A) (l : Layout (Cell k) A V) (into : A → Run (Cell k) A)
      → Copies l into
      → CopiesAt s l (if_set (copy_pointer s into))
  of_into s l into copies = if_set-Copies (address s l) _ (copy_pointer-Copies s l into copies)

module _ {k : External} {Q D L C S : Type 0} (v : Views k Q D L C S) (c : Copiers k) where
  -- `DeepCopy` of each type.
  pub record CopiesAreDeep : Type 0 where
    pub billing_scope_deep :
        CopiesAt {k = k} billing_scope_slot (billing_scope v) (billing_scope_copy c)
    pub detection_criteria_deep :
        CopiesAt {k = k} detection_criteria_slot detection_criteria detection_criteria_copy
    pub fault_config_deep : CopiesAt {k = k} fault_config_slot plain fault_config_copy
    pub livelock_policy_deep :
        CopiesAt {k = k} livelock_policy_slot (livelock_policy v) (livelock_policy_copy c)
    pub livelock_policy_list_deep :
        CopiesAt {k = k} livelock_policy_list_slot
          (livelock_policy_list v)
          (livelock_policy_list_copy c)
    pub livelock_policy_spec_deep :
        CopiesAt {k = k} livelock_policy_spec_slot
          (livelock_policy_spec v)
          (livelock_policy_spec_copy c)
    pub livelock_policy_status_deep :
        CopiesAt {k = k} livelock_policy_status_slot
          (livelock_policy_status v)
          (livelock_policy_status_copy c)
    pub model_limit_deep : CopiesAt {k = k} model_limit_slot plain model_limit_copy
    pub otel_criteria_deep : CopiesAt {k = k} otel_criteria_slot plain otel_criteria_copy
    pub remediation_spec_deep :
        CopiesAt {k = k} remediation_spec_slot remediation_spec remediation_spec_copy
    pub semantic_criteria_deep :
        CopiesAt {k = k} semantic_criteria_slot plain semantic_criteria_copy
    pub target_ref_deep : CopiesAt {k = k} target_ref_slot plain target_ref_copy
    pub token_quota_deep : CopiesAt {k = k} token_quota_slot (token_quota v) (token_quota_copy c)
    pub token_quota_list_deep :
        CopiesAt {k = k} token_quota_list_slot (token_quota_list v) (token_quota_list_copy c)
    pub token_quota_spec_deep :
        CopiesAt {k = k} token_quota_spec_slot (token_quota_spec v) (token_quota_spec_copy c)
    pub token_quota_status_deep :
        CopiesAt {k = k} token_quota_status_slot (token_quota_status v) (token_quota_status_copy c)

  -- Where the deep copies of Kubernetes' own types are deep, so is `DeepCopy` of each of the package's
  -- sixteen types: it returns nil for nil, and otherwise a pointer to a copy that stands for the same
  -- value and reaches new memory only, with nothing that existed before changed.
  pub package-CopiesAreDeep : AreDeep v c → CopiesAreDeep
  unfolding billing_scope_copy detection_criteria_copy fault_config_copy livelock_policy_copy
      livelock_policy_list_copy livelock_policy_spec_copy livelock_policy_status_copy
      model_limit_copy otel_criteria_copy remediation_spec_copy semantic_criteria_copy
      target_ref_copy token_quota_copy token_quota_list_copy token_quota_spec_copy
      token_quota_status_copy fault_config_into model_limit_into otel_criteria_into
      semantic_criteria_into target_ref_into
  package-CopiesAreDeep deep = record {
    billing_scope_deep =
        of_into billing_scope_slot (billing_scope v) (billing_scope_into c)
          (billing_scope_into-Copies v c deep);
    detection_criteria_deep =
        of_into detection_criteria_slot detection_criteria detection_criteria_into
          detection_criteria_into-Copies;
    fault_config_deep = of_into fault_config_slot plain pure pure-Copies;
    livelock_policy_deep =
        of_into livelock_policy_slot (livelock_policy v) (livelock_policy_into c)
          (livelock_policy_into-Copies v c deep);
    livelock_policy_list_deep =
        of_into livelock_policy_list_slot (livelock_policy_list v) (livelock_policy_list_into c)
          (livelock_policy_list_into-Copies v c deep);
    livelock_policy_spec_deep =
        of_into livelock_policy_spec_slot (livelock_policy_spec v) (livelock_policy_spec_into c)
          (livelock_policy_spec_into-Copies v c deep);
    livelock_policy_status_deep =
        of_into livelock_policy_status_slot (livelock_policy_status v)
          (livelock_policy_status_into c) (livelock_policy_status_into-Copies v c deep);
    model_limit_deep = of_into model_limit_slot plain pure pure-Copies;
    otel_criteria_deep = of_into otel_criteria_slot plain pure pure-Copies;
    remediation_spec_deep =
        of_into remediation_spec_slot remediation_spec remediation_spec_into
          remediation_spec_into-Copies;
    semantic_criteria_deep = of_into semantic_criteria_slot plain pure pure-Copies;
    target_ref_deep = of_into target_ref_slot plain pure pure-Copies;
    token_quota_deep =
        of_into token_quota_slot (token_quota v) (token_quota_into c)
          (token_quota_into-Copies v c deep);
    token_quota_list_deep =
        of_into token_quota_list_slot (token_quota_list v) (token_quota_list_into c)
          (token_quota_list_into-Copies v c deep);
    token_quota_spec_deep =
        of_into token_quota_spec_slot (token_quota_spec v) (token_quota_spec_into c)
          (token_quota_spec_into-Copies v c deep);
    token_quota_status_deep =
        of_into token_quota_status_slot (token_quota_status v) (token_quota_status_into c)
          (token_quota_status_into-Copies v c deep);
  }
