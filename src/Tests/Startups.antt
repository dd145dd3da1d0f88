-- ===== src/Tests/Startups.antt =====
-- The start of the operator where a controller cannot be set up, and the reconciler of policies.
use kovern.Prelude.{true, false, [], ◌∷◌, ℕ, ◌+◌, ◌≡◌, refl, Option, some, none}
use kovern.Prelude.Text.{Text, codes}
use kovern.Api
use kovern.Quota.{fetched}
use kovern.Policy.{reconcile_policy}
use kovern.Tests.Fixtures.{team, policy}
use kovern.Operator.Startup.{
  Process, Controller, token_quota, livelock_policy, default_flags, server_closed, listen_error,
  run_receiver, main, exited,
}

abbrev answer : Controller → Option Text
answer token_quota = none
answer livelock_policy = some (codes "no such kind")

-- The state counts the calls and the log lines.
abbrev process : Process ℕ
process = record {
  get_config_or_die = λ w. (none, w);
  new_manager = λ options w. (none, w + 1);
  set_up = λ controller w. (answer controller, w + 1);
  register = λ path w. w + 1;
  add_healthz_check = λ name w. (none, w + 1);
  add_readyz_check = λ name w. (none, w + 1);
  add = λ runnable w. (none, w + 1);
  start_manager = λ w. (none, w + 1);
  listen_and_serve = λ addr w. (server_closed, w + 1);
  shutdown = λ limit w. (none, w + 1);
  info = λ text w. w + 1;
  error = λ text e w. w + 1;
}

-- The third call fails, and its error is the last thing that is logged.
third : main process default_flags 0 ≡ (exited 1, 4)
unfolding main
third = refl

-- A receiver that cannot listen logs it, and the process goes on to its shutdown.
abbrev port_taken : Process ℕ
port_taken = record process { listen_and_serve = λ addr w. (listen_error (codes "in use"), w + 1) }

receiver_fails : run_receiver port_taken (codes ":4318") 0 ≡ (none, 4)
unfolding run_receiver
receiver_fails = refl

-- The policy of the other tests has no semantic detection.
policy_logged :
    (reconcile_policy team policy.name (fetched policy)).0
    ≡ record {
      namespace = team;
      name = policy.name;
      otel_enabled = true;
      semantic_enabled = false;
      remediation_action = Api.inject_fault;
    }
      ∷ []
unfolding reconcile_policy
policy_logged = refl
