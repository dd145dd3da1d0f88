-- ===== src/Tests/PolicyCopies.antt =====
-- A deep copy of a list of policies.
use kovern.Prelude.{ℕ, some, none, List, [], ◌∷◌, ◌≡◌, refl, true, false, arith}
use kovern.Prelude.Int.{pos}
use kovern.Prelude.Text.{codes}
use kovern.Api.{OtelCriteria, FaultConfig, inject_fault, evict_pod}
use kovern.Memory.Layouts.{address}
use kovern.Memory.Writes.{Apart}
use kovern.DeepCopy.{livelock_policy_list_copy_object}
use kovern.DeepCopy.Objects.{a_livelock_policy_list, StoredLivelockPolicy, StoredLivelockPolicyList}
use kovern.DeepCopy.Cells.{
  Cell, inner_cell, policies_cell, otel_criteria_cell, fault_config_cell, livelock_policy_list_cell,
  livelock_policy_list_slot,
}
use kovern.DeepCopy.Views.{PolicyView, livelock_policy_list}
use kovern.DeepCopy.Separation.{livelock_policy_list_copy_object-Apart}
use kovern.Tests.Copies.{external, views, copiers, copiers-AreDeep}

abbrev stored_policy : StoredLivelockPolicy external
stored_policy = record {
  type_meta = 0;
  object_meta = 0;
  spec = record {
    selector = 3;
    detection = record { otel = some 1; semantic = none };
    remediation = record {
      action = inject_fault;
      fault_config = some 2;
      fallback_action = evict_pod;
      emit_event = true;
      gitops_incident = false;
    };
  };
  status = record {
    detection_count = pos 4;
    last_detection = none;
    last_affected_pod = codes "pod";
    conditions = none;
  };
}

abbrev stored_list : StoredLivelockPolicyList external
stored_list = record { type_meta = 0; list_meta = 6; items = some 3 }

abbrev otel : OtelCriteria
otel = record {
  max_same_tool_calls = pos 5;
  window_seconds = pos 60;
  identical_response_hash = false;
}

abbrev fault : FaultConfig
fault = record { http_status_code = pos 429; duration = codes "5m" }

abbrev other_fault : Cell external
other_fault = fault_config_cell record { http_status_code = pos 503; duration = codes "1m" }

-- A list of one policy, in cell 4.
abbrev policy_memory : List (Cell external)
policy_memory =
    inner_cell 7
    ∷ otel_criteria_cell otel
    ∷ fault_config_cell fault
    ∷ policies_cell (stored_policy ∷ [])
    ∷ livelock_policy_list_cell stored_list
    ∷ []

abbrev policy_view : PolicyView external ℕ ℕ ℕ
policy_view = (
  0,
  7,
  record {
    selector = 3;
    detection = record { otel = some otel; semantic = none };
    remediation = record {
      action = inject_fault;
      fault_config = some fault;
      fallback_action = evict_pod;
      emit_event = true;
      gitops_incident = false;
    };
  },
  record { detection_count = pos 4; last_detection = none; last_affected_pod = codes "pod" },
  [],
)

stored_list_holds :
    (address livelock_policy_list_slot (livelock_policy_list views)).holds 0 5 policy_memory 4
      (0, 6, policy_view ∷ [])
stored_list_holds = (
  stored_list,
  omega arith,
  omega arith,
  refl,
  (
    refl,
    (
      refl,
      (
        stored_policy ∷ [],
        omega arith,
        omega arith,
        refl,
        (
          (
            refl,
            (
              (7, omega arith, omega arith, refl, refl),
              (
                (
                  refl,
                  (
                    ((otel, omega arith, omega arith, refl, refl), tt),
                    (refl, (fault, omega arith, omega arith, refl, refl)),
                  ),
                ),
                (refl, (tt, tt)),
              ),
            ),
          ),
          tt,
        ),
      ),
    ),
  ),
)

-- The fault configuration is changed through the original, the criteria through the copy.
livelock_policy_list_copy_object-Apart_example :
    (q : ℕ) × (h' : List (Cell external)) × (livelock_policy_list_copy_object copiers
        (some 4)
        policy_memory
      ≡ some (some (a_livelock_policy_list q), h'))
    × Apart
        (address livelock_policy_list_slot (livelock_policy_list views))
        policy_memory
        ((2, other_fault) ∷ [])
        ((6, inner_cell 8) ∷ [])
        4
        q
        h'
        (0, 6, policy_view ∷ [])
livelock_policy_list_copy_object-Apart_example =
    livelock_policy_list_copy_object-Apart views copiers copiers-AreDeep policy_memory 4
      (0, 6, policy_view ∷ []) ((2, other_fault) ∷ []) ((6, inner_cell 8) ∷ []) stored_list_holds
      (omega arith, tt) (omega arith, tt)
