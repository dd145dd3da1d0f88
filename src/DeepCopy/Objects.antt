-- ===== src/DeepCopy/Objects.antt =====
-- The custom resources of api/v1alpha1 as they lie in memory: a pointer is an address, or none where
-- it is nil, and a slice is the address of its array.
use kovern.Prelude.{ℕ, Option, Bool}
use kovern.Prelude.Int.{ℤ}
use kovern.Prelude.Text.{Text}
use kovern.Api.{QuotaState, EnforcementAction, RemediationAction, TargetRef, BillingScope}

abbrev pub Pointer : Type 0
Pointer = Option ℕ

abbrev pub Slice : Type 0
Slice = Option ℕ

-- The types of Kubernetes' own libraries that the resources hold, and the cells that these refer to.
pub record External : Type 1 where
  pub Quantity : Type 0
  pub ObjectMeta : Type 0
  pub ListMeta : Type 0
  pub TypeMeta : Type 0
  pub Condition : Type 0
  pub LabelSelector : Type 0
  pub Inner : Type 0

pub record StoredDetectionCriteria : Type 0 where
  pub otel : Pointer
  pub semantic : Pointer

pub record StoredRemediationSpec : Type 0 where
  pub action : RemediationAction
  pub fault_config : Pointer
  pub fallback_action : RemediationAction
  pub emit_event : Bool
  pub gitops_incident : Bool

pub record StoredLivelockPolicyStatus : Type 0 where
  pub detection_count : ℤ
  pub last_detection : Pointer
  pub last_affected_pod : Text
  pub conditions : Slice

pub record StoredTokenQuotaStatus : Type 0 where
  pub spent_usd : Text
  pub spent_tokens : ℤ
  pub run_count : ℤ
  pub state : QuotaState
  pub last_updated : Pointer
  pub next_renewal : Pointer
  pub conditions : Slice

module _ (k : External) where
  pub record StoredTokenQuotaSpec : Type 0 where
    pub target_ref : TargetRef
    pub billing_scope : BillingScope k.Quantity
    pub limits : Slice
    pub enforcement_action : EnforcementAction

  pub record StoredTokenQuota : Type 0 where
    pub type_meta : k.TypeMeta
    pub object_meta : k.ObjectMeta
    pub spec : StoredTokenQuotaSpec
    pub status : StoredTokenQuotaStatus

  pub record StoredTokenQuotaList : Type 0 where
    pub type_meta : k.TypeMeta
    pub list_meta : k.ListMeta
    pub items : Slice

  pub record StoredLivelockPolicySpec : Type 0 where
    pub selector : k.LabelSelector
    pub detection : StoredDetectionCriteria
    pub remediation : StoredRemediationSpec

  pub record StoredLivelockPolicy : Type 0 where
    pub type_meta : k.TypeMeta
    pub object_meta : k.ObjectMeta
    pub spec : StoredLivelockPolicySpec
    pub status : StoredLivelockPolicyStatus

  pub record StoredLivelockPolicyList : Type 0 where
    pub type_meta : k.TypeMeta
    pub list_meta : k.ListMeta
    pub items : Slice

-- What `runtime.Object` may be: a pointer to one of the resources.
pub data Object : Type 0 where
  a_token_quota a_token_quota_list a_livelock_policy a_livelock_policy_list : ℕ → Object
