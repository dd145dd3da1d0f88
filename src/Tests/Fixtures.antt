-- ===== src/Tests/Fixtures.antt =====
-- Data for the tests: an account with a budget of 10 dollars, and a client whose calls all succeed.
use kovern.Prelude.{ℕ, ◌+◌, Bool, true, none, some, [], ◌∷◌}
use kovern.Prelude.Int.{ℤ, pos}
use kovern.Prelude.Text.{Text, codes}
use kovern.Prelude.Result.{Result, ok}
use kovern.Float.Fixed.{Fixed, fixed_float}
use kovern.Api
use kovern.Api.{TokenQuota, QuotaState, exceeded, monthly, enforce_evict, LivelockPolicy}
use kovern.Ledger.{Cache, Entry, key}
use kovern.Cluster.{Pod, Deployment, ReplicaSet, running}
use kovern.Cluster.Client.{Client}
use kovern.Webhook.{Request, create}

abbrev pub team : Text
team = codes "team"

abbrev pub agent : Text
agent = codes "agent"

abbrev pub other : Text
other = codes "other"

abbrev pub usd : ℕ → Fixed
usd n = fixed_float.of_int (pos n)

-- A quantity is a whole number of dollars.
abbrev pub whole : ℕ → ℤ × Bool
whole n = (pos n, true)

abbrev pub used_up : Entry Fixed
used_up = record {
  max_usd = usd 10;
  soft_limit_pct = pos 80;
  spent_usd = usd 12;
  spent_tokens = pos 700;
  run_count = pos 3;
  state = exceeded;
  next_renewal = 1000;
  enforcement_action = enforce_evict;
  updated_at = 1;
}

abbrev pub one : Cache Fixed
one = record { entries = (key team agent, used_up) ∷ [] }

abbrev pub pod : Pod
pod = record {
  namespace = team;
  name = codes "agent-1";
  service_account_name = agent;
  owner_references = record { kind = codes "ReplicaSet"; name = codes "rs" } ∷ [];
  phase = running;
}

abbrev pub decode : Pod → Result Pod
decode p = ok p

abbrev pub request : Request Pod
request = record { operation = create; namespace = team; object = pod }

-- The quota of the account, as the API has it: some spend in its status, due at the time `t`.
abbrev pub quota : ℕ → TokenQuota ℕ
quota t = record {
  namespace = team;
  name = codes "agent-quota";
  spec = record {
    target_ref = record { kind = codes "ServiceAccount"; name = agent };
    billing_scope = record {
      currency = codes "USD";
      max_financial_budget = 10;
      renewal_interval = monthly;
      soft_limit_pct = pos 0;
    };
    limits = [];
    enforcement_action = enforce_evict;
  };
  status = record {
    spent_usd = codes "3";
    spent_tokens = pos 40;
    run_count = pos 2;
    state = Api.active;
    last_updated = none;
    next_renewal = some t;
  };
}

abbrev pub policy : LivelockPolicy Text
policy = record {
  namespace = team;
  name = codes "loops";
  spec = record {
    selector = agent;
    detection = record {
      otel = some (record {
        max_same_tool_calls = pos 3;
        window_seconds = pos 60;
        identical_response_hash = true;
      });
      semantic = none;
    };
    remediation = record {
      action = Api.inject_fault;
      fault_config = none;
      fallback_action = Api.suspend_workload;
      emit_event = true;
      gitops_incident = true;
    };
  };
  status = record { detection_count = pos 0; last_detection = none; last_affected_pod = [] };
}

abbrev pub replica_set : ReplicaSet
replica_set = record {
  namespace = team;
  name = codes "rs";
  owner_references = record { kind = codes "Deployment"; name = codes "deploy" } ∷ [];
}

abbrev pub deployment : Deployment
deployment = record { namespace = team; name = codes "deploy"; replicas = some (pos 2) }

-- The world is a clock that each reading advances.
abbrev pub client : Client ℕ Text Text
client = record {
  now = λ w. (w, w + 1);
  list_policies = λ w. (ok (policy ∷ []), w);
  as_selector = λ s. ok s;
  list_pods = λ ns p w. (ok (pod ∷ []), w);
  delete_pod = λ p w. (none, w);
  get_replica_set = λ ns name w. (ok replica_set, w);
  get_deployment = λ ns name w. (ok deployment, w);
  update_deployment = λ d w. (none, w);
  update_status = λ p w. (none, w);
  warn = λ p reason text w. w;
}
