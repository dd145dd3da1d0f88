-- ===== src/Api.antt =====
-- The custom resources, api/v1alpha1. A string enumeration is a data type with a case for the empty
-- string, where the code tests for it, and one for any other string. `Q` stands for
-- `resource.Quantity` and `S` for `metav1.LabelSelector`, types of Kubernetes. Of the metadata the
-- program reads the namespace and the name; it never reads or writes the lists of conditions.
use kovern.Prelude.{Bool, Option, List}
use kovern.Prelude.Int.{ℤ}
use kovern.Prelude.Text.{Text}
use kovern.Time.{Time}

pub data QuotaState : Type 0 where
  unset active soft_limit exceeded suspended : QuotaState
  other_state : Text → QuotaState

pub data EnforcementAction : Type 0 where
  enforce_suspend_workload enforce_scale_to_zero enforce_evict : EnforcementAction
  other_enforcement : Text → EnforcementAction

pub data RenewalInterval : Type 0 where
  hourly daily monthly : RenewalInterval
  other_interval : Text → RenewalInterval

pub record TargetRef : Type 0 where
  pub kind : Text
  pub name : Text

pub record BillingScope (Q : Type 0) : Type 0 where
  pub currency : Text
  pub max_financial_budget : Q
  pub renewal_interval : RenewalInterval
  pub soft_limit_pct : ℤ

pub record ModelLimit : Type 0 where
  pub model_group : Text
  pub max_input_tokens : ℤ
  pub max_output_tokens : ℤ

pub record TokenQuotaSpec (Q : Type 0) : Type 0 where
  pub target_ref : TargetRef
  pub billing_scope : BillingScope Q
  pub limits : List ModelLimit
  pub enforcement_action : EnforcementAction

pub record TokenQuotaStatus : Type 0 where
  pub spent_usd : Text
  pub spent_tokens : ℤ
  pub run_count : ℤ
  pub state : QuotaState
  pub last_updated : Option Time
  pub next_renewal : Option Time

pub record TokenQuota (Q : Type 0) : Type 0 where
  pub namespace : Text
  pub name : Text
  pub spec : TokenQuotaSpec Q
  pub status : TokenQuotaStatus

pub record OtelCriteria : Type 0 where
  pub max_same_tool_calls : ℤ
  pub window_seconds : ℤ
  pub identical_response_hash : Bool

pub record SemanticCriteria : Type 0 where
  pub enabled : Bool
  pub provider : Text
  pub window_turns : ℤ
  pub similarity_threshold : Text
  pub model : Text

pub record DetectionCriteria : Type 0 where
  pub otel : Option OtelCriteria
  pub semantic : Option SemanticCriteria

pub data RemediationAction : Type 0 where
  inject_fault evict_pod suspend_workload : RemediationAction
  other_action : Text → RemediationAction

pub record FaultConfig : Type 0 where
  pub http_status_code : ℤ
  pub duration : Text

pub record RemediationSpec : Type 0 where
  pub action : RemediationAction
  pub fault_config : Option FaultConfig
  pub fallback_action : RemediationAction
  pub emit_event : Bool
  pub gitops_incident : Bool

pub record LivelockPolicySpec (S : Type 0) : Type 0 where
  pub selector : S
  pub detection : DetectionCriteria
  pub remediation : RemediationSpec

pub record LivelockPolicyStatus : Type 0 where
  pub detection_count : ℤ
  pub last_detection : Option Time
  pub last_affected_pod : Text

pub record LivelockPolicy (S : Type 0) : Type 0 where
  pub namespace : Text
  pub name : Text
  pub spec : LivelockPolicySpec S
  pub status : LivelockPolicyStatus
