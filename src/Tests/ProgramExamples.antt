-- ===== src/Tests/ProgramExamples.antt =====
-- The theorems on the program's entry at concrete values.
use mathlib.Core.List.{Memᴰ}
use kube_smart_scheduler.Prelude.{ℕ, suc, ◌≡◌, ◌↔◌, refl, true, none, some, [], ◌∷◌, All, arith}
use kube_smart_scheduler.GoText.{codes, join, is_space}
use kube_smart_scheduler.GoMap.{lookup}
use kube_smart_scheduler.Main.{parse_watch_namespaces, default_namespaces}
use kube_smart_scheduler.Main.Namespaces.{IsNamespace, default_namespaces-Mem}
use kube_smart_scheduler.Prelude.Result.{ok}
use kube_smart_scheduler.Version.{Runtime, unknown_build}
use kube_smart_scheduler.Setup.{
  deployments, pods, pod_placement_policies, Platform, setup_scheduler, setup_webhook,
  setup_rebalance, setup_policy, prepared, with_state_manager,
}
use kube_smart_scheduler.Main.Run.{
  Flags, default_flags, failed, unable_to_create_policy, api_client, pod_mutator,
  stateful_controller, unless, attempt, with_client, with_manager, main,
}
use kube_smart_scheduler.Main.Unlogged.{LogsOwn, state_managers_unlogged}
use kube_smart_scheduler.Main.DebugClient.{ObjectClient}

plain_names : All IsNamespace (codes "a" ∷ [] ∷ [])
unfolding is_space
plain_names = ((((ground arith), tt), (refl, tt)), ((tt, tt), tt))

-- The flag is `a,`: the empty name, which stands for all namespaces, is watched.
default_namespaces-Mem_example :
    (lookup []
        (default_namespaces (parse_watch_namespaces (join (b',' ∷ []) (codes "a" ∷ [] ∷ []))))
      ≡ some tt)
    ↔ Memᴰ [] (codes "a" ∷ [] ∷ [])
default_namespaces-Mem_example =
    default_namespaces-Mem (codes "a") ([] ∷ []) [] (λ e. cc) plain_names

-- Keys, objects, lists, patches, options and errors are numbers; a write counts the world up.
abbrev counting_client : ObjectClient ℕ ℕ ℕ ℕ ℕ ℕ ℕ
counting_client = record {
  get = λ key obj opts w. ((none, w), w);
  list = λ objects opts w. ((none, w), w);
  create = λ obj opts w. ((none, obj), suc w);
  delete = λ obj opts w. ((some 404, obj), w);
  update = λ obj opts w. ((none, obj), suc w);
  patch = λ obj p opts w. ((none, p), suc w);
  delete_all_of = λ obj opts w. ((none, obj), suc w);
  status_update = λ obj opts w. ((none, obj), suc w);
}

-- Managers, decoders and errors are numbers; every call counts the world up, and the controller of
-- policies cannot be built.
abbrev counting_platform : Platform ℕ ℕ (ObjectClient ℕ ℕ ℕ ℕ ℕ ℕ ℕ) ℕ ℕ
counting_platform = record {
  new_manager = λ options w. (ok 1, suc w);
  get_client = λ mgr. counting_client;
  new_decoder = λ mgr. 2;
  register = λ mgr path pm w. (tt, suc w);
  complete = λ mgr spec w. (
    elim spec.kind [ pod_placement_policies ↦ some 7 | deployments ↦ none | pods ↦ none ],
    suc w,
  );
  add_healthz_check = λ mgr name w. (none, suc w);
  add_readyz_check = λ mgr name w. (none, suc w);
  start = λ mgr w. (none, suc w);
  print = λ text w. (tt, suc w);
}

abbrev test_runtime : Runtime
test_runtime = record {
  version = codes "go1.21";
  compiler = codes "gc";
  goos = codes "linux";
  goarch = codes "amd64";
}

-- The fifth call is the last one.
gives_up :
    main counting_platform unknown_build test_runtime default_flags 0
    ≡ (failed unable_to_create_policy 7, 5)
unfolding main with_manager with_client attempt unless setup_scheduler setup_webhook setup_rebalance
    setup_policy
gives_up = refl

abbrev debug_flags : Flags
debug_flags = record default_flags { enable_debug_api_logging = true }

state_managers_unlogged_example :
    let client = api_client debug_flags counting_client in
    let webhook = prepared counting_platform (pod_mutator client) 1 in
    let controller = with_state_manager counting_platform 1 (stateful_controller client) in
    LogsOwn counting_platform 1 webhook.client webhook.state_manager
    × LogsOwn counting_platform 1 controller.client controller.state_manager
state_managers_unlogged_example = state_managers_unlogged counting_platform 1 debug_flags refl
