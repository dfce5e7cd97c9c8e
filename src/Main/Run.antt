-- ===== src/Main/Run.antt =====
-- The function main (cmd/main.go). Parsing the flags is left to the package flag, and logging is left
-- out.
use kube_smart_scheduler.Prelude.{ℕ, Bool, true, false, Option, none, some, [], ◌++◌, if◌then◌else◌}
use kube_smart_scheduler.Prelude.Int.{ℤ, pos}
use kube_smart_scheduler.Prelude.Result.{Result, ok, err}
use kube_smart_scheduler.GoText.{Text, codes}
use kube_smart_scheduler.Client.{Act, ◌>>=◌, ◌>>◌, pure}
use kube_smart_scheduler.Version
use kube_smart_scheduler.Version.{Build, Runtime}
use kube_smart_scheduler.Main.{parse_watch_namespaces, default_namespaces}
use kube_smart_scheduler.Setup.{
  ApiClient, direct, debugging, PodMutator, SchedulerController, StatefulController, ManagerOptions,
  Platform, setup_scheduler, setup_rebalance, setup_policy, setup_webhook,
}

pub record Flags : Type 0 where
  pub metrics_addr : Text
  pub probe_addr : Text
  pub enable_leader_election : Bool
  pub webhook_port : ℤ
  pub cert_dir : Text
  pub enable_debug_api_logging : Bool
  pub show_version : Bool
  pub watch_namespaces : Text

-- What the flags are if they are not given.
abbrev pub default_flags : Flags
default_flags = record {
  metrics_addr = codes ":8080";
  probe_addr = codes ":8081";
  enable_leader_election = false;
  webhook_port = pos 9_443;
  cert_dir = codes "/tmp/k8s-webhook-server/serving-certs/";
  enable_debug_api_logging = false;
  show_version = false;
  watch_namespaces = [];
}

unfoldable pub manager_options : Flags → ManagerOptions
manager_options flags = record {
  webhook_port = flags.webhook_port;
  cert_dir = flags.cert_dir;
  metrics_bind_address = flags.metrics_addr;
  health_probe_bind_address = flags.probe_addr;
  leader_election = flags.enable_leader_election;
  leader_election_id = codes "smart-scheduler-leader";
  default_namespaces = default_namespaces (parse_watch_namespaces flags.watch_namespaces);
}

-- debugClientWrapper
unfoldable pub api_client : {C : Type 0} → Flags → C → ApiClient C
api_client flags client =
    if flags.enable_debug_api_logging then debugging true client else direct client

-- The controllers and the webhook as main makes them.
abbrev pub scheduler_controller : {C : Type 0} → ApiClient C → SchedulerController C
scheduler_controller client = record { client = client }

abbrev pub stateful_controller : {C : Type 0} → ApiClient C → StatefulController C
stateful_controller client = record { client = client; state_manager = none }

abbrev pub pod_mutator : {C D : Type 0} → ApiClient C → PodMutator C D
pod_mutator client = record { client = client; decoder = none; state_manager = none }

-- By the message with which the program gives up.
pub data Stage : Type 0 where
  unable_to_start_manager unable_to_create_scheduler unable_to_setup_webhook : Stage
  unable_to_create_rebalance unable_to_create_policy : Stage
  unable_to_set_up_health_check unable_to_set_up_ready_check problem_running_manager : Stage

pub data Outcome (E : Type 0) : Type 0 where
  showed_version : Outcome E
  stopped : Outcome E
  failed : Stage → E → Outcome E

-- The argument of os.Exit, or 0 where main returns.
unfoldable pub exit_code : {E : Type 0} → Outcome E → ℕ
exit_code showed_version = 0
exit_code stopped = 0
exit_code (failed stage e) = 1

module _ {W M C D E : Type 0} (platform : Platform W M C D E) (build : Build)
    (runtime : Runtime) where
  open platform use {new_manager, get_client, add_healthz_check, add_readyz_check, start, print}

  unfoldable pub unless : Stage → Act W (Outcome E) → Option E → Act W (Outcome E)
  unless stage rest none = rest
  unless stage rest (some e) = pure (failed stage e)

  -- A call whose error ends the program, and what comes after it.
  unfoldable pub attempt : Stage → Act W (Option E) → Act W (Outcome E) → Act W (Outcome E)
  unfolding unless
  attempt stage call rest = call >>= unless stage rest

  unfoldable pub run_manager : M → Act W (Outcome E)
  unfolding attempt
  run_manager mgr =
      attempt unable_to_set_up_health_check (add_healthz_check mgr (codes "healthz")) (
        attempt unable_to_set_up_ready_check (add_readyz_check mgr (codes "readyz"))
          (attempt problem_running_manager (start mgr) (pure stopped)))

  unfoldable pub with_client : ApiClient C → M → Act W (Outcome E)
  unfolding run_manager setup_scheduler setup_webhook setup_rebalance setup_policy
  with_client client mgr =
      attempt unable_to_create_scheduler
        (setup_scheduler platform (scheduler_controller client) mgr)
        (attempt unable_to_setup_webhook (setup_webhook platform (pod_mutator client) mgr) (
          attempt unable_to_create_rebalance
            (setup_rebalance platform (stateful_controller client) mgr)
            (attempt unable_to_create_policy
              (setup_policy platform (stateful_controller client) mgr) (run_manager mgr))))

  unfoldable pub with_manager : Flags → Result E M → Act W (Outcome E)
  unfolding with_client api_client
  with_manager flags (err e) = pure (failed unable_to_start_manager e)
  with_manager flags (ok mgr) = with_client (api_client flags (get_client mgr)) mgr

  unfoldable pub print_version : Act W (Outcome E)
  unfolding Version.get Version.string
  print_version =
      print (codes "Smart Scheduler Manager\n")
      >> print (Version.string (Version.get build runtime) ++ codes "\n")
      >> pure showed_version

  unfoldable pub main : Flags → Act W (Outcome E)
  unfolding with_manager manager_options print_version
  main flags =
      let started = new_manager (manager_options flags) >>= with_manager flags in
      if flags.show_version then print_version else started
