-- ===== src/Setup.antt =====
-- How the parts are set up with the manager: SetupWithManager of the three controllers (controllers/)
-- and the methods of the webhook behind Handle (webhook/mutate_pod.go). The manager of
-- controller-runtime is a parameter: an error of it is of type `E`, a manager of type `M`, its client
-- of type `C` and a decoder of type `D`. Loggers and schemes are left out.
use kube_smart_scheduler.Prelude.{ℕ, Bool, Option, none, some, List, [], ◌∷◌}
use kube_smart_scheduler.Prelude.Int.{ℤ}
use kube_smart_scheduler.Prelude.Result.{Result}
use kube_smart_scheduler.GoText.{Text, codes}
use kube_smart_scheduler.GoMap.{Map}
use kube_smart_scheduler.Client.{Act, ◌>>◌, pure}

-- A client.Client: the manager's, or a debugClient around it, with its field debug.
pub data ApiClient (C : Type 0) : Type 0 where
  direct : C → ApiClient C
  debugging : Bool → C → ApiClient C

pub record StateManager (C : Type 0) : Type 0 where
  pub client : ApiClient C

pub record SchedulerController (C : Type 0) : Type 0 where
  pub client : ApiClient C

-- The fields of RebalanceController and of PodPlacementPolicyController; `none` is nil.
pub record StatefulController (C : Type 0) : Type 0 where
  pub client : ApiClient C
  pub state_manager : Option (StateManager C)

pub record PodMutator (C D : Type 0) : Type 0 where
  pub client : ApiClient C
  pub decoder : Option D
  pub state_manager : Option (StateManager C)

pub data Kind : Type 0 where
  deployments pods pod_placement_policies : Kind

pub data Reconciler (C : Type 0) : Type 0 where
  scheduler : SchedulerController C → Reconciler C
  rebalance pod_placement_policy : StatefulController C → Reconciler C

-- What a controller is built from: the argument of For, those of Watches, MaxConcurrentReconciles if
-- it is set, and the argument of Complete. The filters of events are defined in Scheduler and Events.
pub record ControllerSpec (C : Type 0) : Type 0 where
  pub kind : Kind
  pub watches : List Kind
  pub max_concurrent_reconciles : Option ℕ
  pub reconciler : Reconciler C

-- The fields of ctrl.Options that main sets, with those of the servers in it.
pub record ManagerOptions : Type 0 where
  pub webhook_port : ℤ
  pub cert_dir : Text
  pub metrics_bind_address : Text
  pub health_probe_bind_address : Text
  pub leader_election : Bool
  pub leader_election_id : Text
  pub default_namespaces : Map (Unit {0})

-- controller-runtime, and fmt.Printf. new_manager is ctrl.NewManager at what GetConfigOrDie gives, whose
-- failure ends the program like that of NewManager. The checks of health are healthz.Ping.
pub record Platform (W M C D E : Type 0) : Type 0 where
  pub new_manager : ManagerOptions → Act W (Result E M)
  pub get_client : M → C
  pub new_decoder : M → D
  pub register : M → Text → PodMutator C D → Act W (Unit {0})
  pub complete : M → ControllerSpec C → Act W (Option E)
  pub add_healthz_check : M → Text → Act W (Option E)
  pub add_readyz_check : M → Text → Act W (Option E)
  pub start : M → Act W (Option E)
  pub print : Text → Act W (Unit {0})

abbrev pub new_state_manager : {C : Type 0} → ApiClient C → StateManager C
new_state_manager client = record { client = client }

-- A state manager is made of the manager's own client, if there is none.
unfoldable pub state_manager_or : {C : Type 0} → C → Option (StateManager C) → StateManager C
state_manager_or client none = new_state_manager (direct client)
state_manager_or client (some state_manager) = state_manager

module _ {W M C D E : Type 0} (platform : Platform W M C D E) where
  open platform use {get_client, new_decoder, register, complete}

  abbrev pub with_state_manager : M → StatefulController C → StatefulController C
  with_state_manager mgr r = record r {
    state_manager = some (state_manager_or (get_client mgr) r.state_manager);
  }

  unfoldable pub setup_scheduler : SchedulerController C → M → Act W (Option E)
  setup_scheduler r mgr = complete mgr (record {
    kind = deployments;
    watches = [];
    max_concurrent_reconciles = none;
    reconciler = scheduler r;
  })

  unfoldable pub setup_rebalance : StatefulController C → M → Act W (Option E)
  setup_rebalance r mgr = complete mgr (record {
    kind = deployments;
    watches = pods ∷ [];
    max_concurrent_reconciles = some 1;
    reconciler = rebalance (with_state_manager mgr r);
  })

  unfoldable pub setup_policy : StatefulController C → M → Act W (Option E)
  setup_policy r mgr = complete mgr (record {
    kind = pod_placement_policies;
    watches = deployments ∷ [];
    max_concurrent_reconciles = some 2;
    reconciler = pod_placement_policy (with_state_manager mgr r);
  })

  -- The webhook with its decoder and its state manager.
  abbrev pub prepared : PodMutator C D → M → PodMutator C D
  prepared pm mgr = record pm {
    decoder = some (new_decoder mgr);
    state_manager = some (state_manager_or (get_client mgr) pm.state_manager);
  }

  -- SetupWebhookWithManager, which never fails.
  unfoldable pub setup_webhook : PodMutator C D → M → Act W (Option E)
  setup_webhook pm mgr = register mgr (codes "/mutate-v1-pod") (prepared pm mgr) >> pure none

-- The further methods of the webhook: `none` is a nil error, and an empty list no warnings.
unfoldable pub inject_decoder : {C D E : Type 0} → D → PodMutator C D → Option E × PodMutator C D
inject_decoder d pm = (none, record pm { decoder = some d })

abbrev pub default : {O E : Type 0} → O → Option E
default obj = none

abbrev pub validate_create : {O E : Type 0} → O → List Text × Option E
validate_create obj = ([], none)

abbrev pub validate_update : {O E : Type 0} → O → O → List Text × Option E
validate_update old_obj new_obj = ([], none)

abbrev pub validate_delete : {O E : Type 0} → O → List Text × Option E
validate_delete obj = ([], none)
