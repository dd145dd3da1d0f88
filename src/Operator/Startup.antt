-- ===== src/Operator/Startup.antt =====
-- cmd/main.go, `main`: the flags, and the registrations with the controller manager. The manager, the
-- HTTP server and the log are an interface over a state `W` of the process; `none` in place of an
-- error is nil.
use kovern.Prelude.{ℕ, ◌*◌, Bool, false, Option, none, some, List}
use kovern.Prelude.Int.{ℤ, pos}
use kovern.Prelude.Text.{Text, codes}
use kovern.Time.{Duration, nano_per_second}
use kovern.Spans.{SpanStore}
use kovern.Heuristic
use kovern.Heuristic.{ticks}
use kovern.Cluster.Client.{Client}
use kovern.Remediation.{M, pure}

pub record Flags : Type 0 where
  pub metrics_addr : Text
  pub probe_addr : Text
  pub enable_leader_election : Bool
  pub webhook_port : ℤ
  pub cert_dir : Text
  pub otlp_addr : Text

-- The flags of an empty command line.
unfoldable pub default_flags : Flags
default_flags = record {
  metrics_addr = codes ":8080";
  probe_addr = codes ":8081";
  enable_leader_election = false;
  webhook_port = pos 9443;
  cert_dir = codes "/tmp/k8s-webhook-server/serving-certs";
  otlp_addr = codes ":4318";
}

-- `ctrl.Options`
pub record Options : Type 0 where
  pub metrics_bind_address : Text
  pub health_probe_bind_address : Text
  pub leader_election : Bool
  pub leader_election_id : Text

pub data Controller : Type 0 where
  token_quota livelock_policy : Controller

-- What is started with the manager: the OTLP server at an address, and the engine with its interval.
pub data Runnable : Type 0 where
  otlp_receiver : Text → Runnable
  heuristic_engine : Duration → Runnable

-- How `ListenAndServe` ends, beside the wait for the end of the process: with `http.ErrServerClosed`,
-- once the server is shut down, or before that with another error.
pub data Served : Type 0 where
  server_closed : Served
  listen_error : Text → Served

pub record Process (W : Type 0) : Type 0 where
  -- `ctrl.GetConfigOrDie`: the code with which it ended the process itself, or none.
  pub get_config_or_die : W → Option ℕ × W
  pub new_manager : Options → W → Option Text × W
  -- `SetupWithManager`
  pub set_up : Controller → W → Option Text × W
  -- The admission handler, at a path of the webhook server.
  pub register : Text → W → W
  pub add_healthz_check : Text → W → Option Text × W
  pub add_readyz_check : Text → W → Option Text × W
  pub add : Runnable → W → Option Text × W
  pub start_manager : W → Option Text × W
  pub listen_and_serve : Text → W → Served × W
  -- `Shutdown` with a time limit, after the context is done.
  pub shutdown : Duration → W → Option Text × W
  pub info : Text → W → W
  pub error : Text → Text → W → W

-- `main` returns, or the process exits with a code.
pub data Exit : Type 0 where
  returned : Exit
  exited : ℕ → Exit

unfoldable pub manager_options : Flags → Options
manager_options flags = record {
  metrics_bind_address = flags.metrics_addr;
  health_probe_bind_address = flags.probe_addr;
  leader_election = flags.enable_leader_election;
  leader_election_id = codes "kovern.io";
}

-- `Engine.Interval`
abbrev pub engine_interval : Duration
engine_interval = pos (10 * nano_per_second)

module _ {W : Type 0} (p : Process W) where
  abbrev pub exit_on : Text → M W Exit → Option Text → M W Exit
  exit_on message rest none w = rest w
  exit_on message rest (some e) w = (exited 1, p.error message e w)

  -- `if err := call(); err != nil { logger.Error(err, message); os.Exit(1) }`, and then the rest.
  abbrev pub or_exit : Text → M W (Option Text) → M W Exit → M W Exit
  or_exit message call rest w = let (e, w') = call w in exit_on message rest e w'

  -- The end of `main`: `mgr.Start`.
  unfoldable pub run_manager : M W Exit
  run_manager w =
      or_exit (codes "problem running manager") p.start_manager (pure returned)
        (p.info (codes "starting kovern operator") w)

  -- The OTLP receiver and the heuristic engine.
  unfoldable pub add_runnables : Flags → M W Exit
  unfolding run_manager
  add_runnables flags =
      or_exit (codes "unable to register OTLP receiver") (p.add (otlp_receiver flags.otlp_addr)) (
        or_exit (codes "unable to register heuristic engine")
          (p.add (heuristic_engine engine_interval)) run_manager)

  -- The webhook and the checks of the probes.
  unfoldable pub add_webhook : Flags → M W Exit
  unfolding add_runnables
  add_webhook flags w =
      or_exit (codes "unable to set up health check") (p.add_healthz_check (codes "healthz"))
        (or_exit (codes "unable to set up ready check") (p.add_readyz_check (codes "readyz"))
          (add_runnables flags))
        (p.register (codes "/validate-v1-pod") w)

  abbrev with_config : Option ℕ → M W Exit → M W Exit
  with_config none rest w = rest w
  with_config (some code) rest w = (exited code, w)

  unfoldable pub main : Flags → M W Exit
  unfolding add_webhook
  main flags w =
      let (died, w') = p.get_config_or_die w in
      with_config died
        (or_exit (codes "unable to start manager") (p.new_manager (manager_options flags)) (
          or_exit (codes "unable to create TokenQuota controller") (p.set_up token_quota) (
            or_exit (codes "unable to create LivelockPolicy controller") (p.set_up livelock_policy)
              (add_webhook flags))))
        w'

  abbrev log_served : Served → W → W
  log_served server_closed w = w
  log_served (listen_error e) w = p.error (codes "OTLP receiver error") e w

  -- The OTLP receiver, once started: its error is that of the shutdown, and that of the listener is
  -- only logged.
  unfoldable pub run_receiver : Text → M W (Option Text)
  run_receiver addr w =
      let (served, w') = p.listen_and_serve addr (p.info (codes "starting OTLP receiver") w) in
      p.shutdown (pos (5 * nano_per_second)) (log_served served w')

  -- The engine, once started, with the steps of the rest of the world before its ticks. It never
  -- returns an error.
  unfoldable pub run_engine :
      {S P : Type 0}
      → Client W S P
      → (W → SpanStore)
      → (SpanStore → W → W)
      → List (W → W)
      → M W (Option Text)
  run_engine c store put_store steps w =
      let (e, w') =
        ticks c store put_store steps Heuristic.new
          (p.info (codes "starting heuristic engine") w) in
      (none, w')
