-- ===== src/Tests/QuotaCopies.antt =====
-- A deep copy of a quota.
use kovern.Prelude.{ℕ, some, none, List, [], ◌∷◌, ◌≡◌, refl, arith}
use kovern.Prelude.Int.{pos}
use kovern.Prelude.Text.{codes}
use kovern.Api.{BillingScope, TargetRef, ModelLimit, hourly, active, enforce_evict}
use kovern.Memory.Layouts.{address}
use kovern.Memory.Writes.{Apart}
use kovern.DeepCopy.{token_quota_copy_object}
use kovern.DeepCopy.Objects.{StoredTokenQuota, a_token_quota}
use kovern.DeepCopy.Cells.{
  Cell, time_cell, model_limits_cell, conditions_cell, token_quota_cell, inner_cell,
  token_quota_slot,
}
use kovern.DeepCopy.Views.{QuotaView, token_quota}
use kovern.DeepCopy.Separation.{token_quota_copy_object-Apart}
use kovern.Tests.Copies.{external, views, copiers, copiers-AreDeep}

abbrev target : TargetRef
target = record { kind = codes "ServiceAccount"; name = codes "agent" }

abbrev scope : BillingScope ℕ
scope = record {
  currency = codes "USD";
  max_financial_budget = 5;
  renewal_interval = hourly;
  soft_limit_pct = pos 80;
}

abbrev limits : List ModelLimit
limits =
    record { model_group = codes "claude"; max_input_tokens = pos 100; max_output_tokens = pos 10 }
    ∷ []

abbrev stored_quota : StoredTokenQuota external
stored_quota = record {
  type_meta = 0;
  object_meta = 0;
  spec = record {
    target_ref = target;
    billing_scope = scope;
    limits = some 2;
    enforcement_action = enforce_evict;
  };
  status = record {
    spent_usd = codes "1";
    spent_tokens = pos 3;
    run_count = pos 2;
    state = active;
    last_updated = none;
    next_renewal = some 1;
    conditions = some 3;
  };
}

-- The quota lies in cell 4 and refers to the four before it.
abbrev quota_memory : List (Cell external)
quota_memory =
    inner_cell 7
    ∷ time_cell 5
    ∷ model_limits_cell limits
    ∷ conditions_cell (1 ∷ 2 ∷ [])
    ∷ token_quota_cell stored_quota
    ∷ []

abbrev quota_view : QuotaView external ℕ ℕ ℕ
quota_view = (
  0,
  7,
  record {
    target_ref = target;
    billing_scope = scope;
    limits = limits;
    enforcement_action = enforce_evict;
  },
  record {
    spent_usd = codes "1";
    spent_tokens = pos 3;
    run_count = pos 2;
    state = active;
    last_updated = none;
    next_renewal = some 5;
  },
  1 ∷ 2 ∷ [],
)

stored_quota_holds :
    (address token_quota_slot (token_quota views)).holds 0 5 quota_memory 4 quota_view
stored_quota_holds = (
  stored_quota,
  omega arith,
  omega arith,
  refl,
  (
    refl,
    (
      (7, omega arith, omega arith, refl, refl),
      (
        (refl, ((refl, refl), (limits, omega arith, omega arith, refl, refl))),
        (
          refl,
          (
            tt,
            (
              (5, omega arith, omega arith, refl, refl),
              (1 ∷ 2 ∷ [], omega arith, omega arith, refl, (refl, (refl, tt))),
            ),
          ),
        ),
      ),
    ),
  ),
)

-- The renewal time is changed through the original, the metadata through the copy.
token_quota_copy_object-Apart_example :
    (q : ℕ) × (h' : List (Cell external)) × (token_quota_copy_object copiers (some 4) quota_memory
      ≡ some (some (a_token_quota q), h'))
    × Apart
        (address token_quota_slot (token_quota views))
        quota_memory
        ((1, time_cell 9) ∷ [])
        ((5, inner_cell 8) ∷ [])
        4
        q
        h'
        quota_view
token_quota_copy_object-Apart_example =
    token_quota_copy_object-Apart views copiers copiers-AreDeep quota_memory 4 quota_view
      ((1, time_cell 9) ∷ []) ((5, inner_cell 8) ∷ []) stored_quota_holds (omega arith, tt)
      (omega arith, tt)
