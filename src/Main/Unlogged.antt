-- ===== src/Main/Unlogged.antt =====
-- Whose requests are logged (cmd/main.go, webhook/mutate_pod.go, controllers/).
use kube_smart_scheduler.Prelude.{◌≡◌, refl, true, false, Option, some, List}
use kube_smart_scheduler.Setup.{
  ApiClient, direct, debugging, StateManager, Platform, state_manager_or, with_state_manager,
  prepared,
}
use kube_smart_scheduler.Main.DebugClient.{
  Entry, ObjectClient, debug_client, LogsRequests, debug_client-IsLogged,
}
use kube_smart_scheduler.Main.Run.{Flags, api_client, stateful_controller, pod_mutator}

module _ {W K O L P X E : Type 0} where
  -- What a client does: the manager's own adds nothing to the log.
  abbrev pub methods :
      ApiClient (ObjectClient W K O L P X E) → ObjectClient (W × List (Entry E)) K O L P X E
  methods (direct client) = debug_client false client
  methods (debugging debug client) = debug_client debug client

  module _ {V M D : Type 0} (platform : Platform V M (ObjectClient W K O L P X E) D E)
      (mgr : M) where
    -- The client of a part logs its requests, but for updates of a status, and that of its state manager
    -- logs none.
    abbrev pub LogsOwn :
        ApiClient (ObjectClient W K O L P X E)
        → Option (StateManager (ObjectClient W K O L P X E))
        → Type 0
    LogsOwn client held =
        LogsRequests true (platform.get_client mgr) (methods client)
        × (state_manager : StateManager (ObjectClient W K O L P X E)) × (held ≡ some state_manager)
        × LogsRequests false (platform.get_client mgr) (methods state_manager.client)

    -- With --debug-api-requests the webhook and the two controllers that have a state manager log
    -- their own requests, but for updates of a status, and their state managers log none.
    pub state_managers_unlogged :
        (flags : Flags)
        → flags.enable_debug_api_logging ≡ true
        → let client = api_client flags (platform.get_client mgr) in
          let webhook = prepared platform (pod_mutator client) mgr in
          let controller = with_state_manager platform mgr (stateful_controller client) in
          LogsOwn webhook.client webhook.state_manager
          × LogsOwn controller.client controller.state_manager
    unfolding api_client state_manager_or
    state_managers_unlogged flags debug =
        let client = platform.get_client mgr in
        let own : LogsOwn (api_client flags client) (some (record { client = direct client })) =
          rw debug (
            debug_client-IsLogged true client,
            record { client = direct client },
            refl,
            debug_client-IsLogged false client,
          ) in
        (own, own)
