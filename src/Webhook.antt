-- ===== src/Webhook.antt =====
-- internal/webhook/admission.go: the admission handler for pods. `R` stands for the raw object of a
-- request, and `decode` for the admission library's decoder.
pub mod Decisions
pub mod Enforcement
pub mod Views
use kovern.Prelude.{Bool, true, false, Option, none, some, List, [], ◌∷◌, ◌++◌, ℕ, if◌then◌else◌}
use kovern.Prelude.Text.{Text, codes, is_empty}
use kovern.Prelude.Result.{Result, ok, err}
use kovern.Float.{Float64}
use kovern.Time.{Time}
use kovern.Api
use kovern.Api.{QuotaState, unset, active, soft_limit, exceeded, suspended}
use kovern.Ledger.{Cache, check}
use kovern.Cluster.{Pod}

pub data Operation : Type 0 where
  create other_operation : Operation

pub record Request (R : Type 0) : Type 0 where
  pub operation : Operation
  pub namespace : Text
  pub object : R

-- `admission.Allowed` with its warnings, `admission.Denied` and `admission.Errored`.
pub data Response : Type 0 where
  allowed : Text → List Text → Response
  denied : Text → Response
  errored : ℕ → Text → Response

abbrev pub bad_request : ℕ
bad_request = 400

abbrev pub state_text : QuotaState → Text
state_text unset = []
state_text active = codes "Active"
state_text soft_limit = codes "SoftLimit"
state_text exceeded = codes "Exceeded"
state_text suspended = codes "Suspended"
state_text (Api.other_state s) = s

-- The service account that a pod runs as.
abbrev pub account : Pod → Text
account pod =
    if is_empty pod.service_account_name then codes "default" else pod.service_account_name

-- `<ns>/<sa>`, as the messages print it.
abbrev slashed : Text → Text → Text
slashed ns sa = ns ++ (b'/' ∷ sa)

abbrev refusal : QuotaState → Text → Text → Text
refusal state ns sa =
    codes "kovern: quota "
    ++ (state_text state
        ++ (codes " for "
            ++ (slashed ns sa ++ codes " — no new agent runs until the next renewal period")))

abbrev warning : Text → Text → Text
warning ns sa =
    codes "kovern: quota soft limit reached for "
    ++ (slashed ns sa ++ codes " — budget is running low")

-- The `switch` over the state.
abbrev respond : QuotaState → Text → Text → Response
respond exceeded ns sa = denied (refusal exceeded ns sa)
respond suspended ns sa = denied (refusal suspended ns sa)
respond soft_limit ns sa = allowed (codes "quota active") (warning ns sa ∷ [])
respond _ ns sa = allowed (codes "quota active") []

-- The answer to what `Check` returns.
abbrev pub answer : QuotaState × Option Text → Text → Text → Response
answer (state, some e) ns sa = allowed (codes "quota cache error — failing open") []
answer (state, none) ns sa = respond state ns sa

module _ {F R : Type 0} (decode : R → Result Pod) where
  abbrev pub handle_create : Time → Cache F → Text → Result Pod → Response
  handle_create now c ns (err e) = errored bad_request e
  handle_create now c ns (ok pod) = answer (check now c ns (account pod)) ns (account pod)

  abbrev pub handle_operation : Operation → Time → Cache F → Request R → Response
  handle_operation create now c req = handle_create now c req.namespace (decode req.object)
  handle_operation other_operation now c req = allowed (codes "not a create operation") []

  unfoldable pub handle : Time → Cache F → Request R → Response
  handle now c req = handle_operation req.operation now c req
