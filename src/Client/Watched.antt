-- ===== src/Client/Watched.antt =====
-- A client with a memory of what it does: of how long it sleeps, or of the pods that
-- it is told of and of those that it deletes.
use kube_smart_scheduler.Prelude.{ℕ, ◌+◌, ◌≡◌, Option, none, some, List, [], ◌∷◌, ◌++◌}
use kube_smart_scheduler.Prelude.Result.{Result, ok, err}
use kube_smart_scheduler.Kube.{Pod}
use kube_smart_scheduler.Client.{ApiError, Act, Client}

-- What a sleep, a list of pods and a deletion leave in the memory.
pub record Watch (T : Type 0) : Type 0 where
  pub on_sleep : ℕ → T → T
  pub on_list : Result ApiError (List Pod) → T → T
  pub on_delete : Pod → Result ApiError (Unit {0}) → T → T

-- The sum of the sleeps.
abbrev pub sleeps : Watch ℕ
sleeps = record {
  on_sleep = λ duration slept. slept + duration;
  on_list = λ listed slept. slept;
  on_delete = λ pod result slept. slept;
}

abbrev pub gone_with : Pod → Result ApiError (Unit {0}) → List Pod
gone_with pod (ok done) = pod ∷ []
gone_with pod (err e) = []

abbrev pub pods_of : Result ApiError (List Pod) → List Pod
pods_of (ok pods) = pods
pods_of (err e) = []

-- The pods that were listed, and those whose deletion was accepted.
abbrev pub Memory : Type 0
Memory = List Pod × List Pod

abbrev pub deletions : Watch Memory
deletions = record {
  on_sleep = λ duration memory. memory;
  on_list = λ listed memory. (memory.0 ++ pods_of listed, memory.1);
  on_delete = λ pod result memory. (memory.0, memory.1 ++ gone_with pod result);
}

-- The memory after pods were listed with this answer, or not listed.
abbrev pub after_list : {T : Type 0} → Watch T → Option (Result ApiError (List Pod)) → T → T
after_list watch none t = t
after_list watch (some listed) t = watch.on_list listed t

module _ {W T : Type 0} where
  -- An action that leaves the memory as it is.
  abbrev awake {ℓ} : {A : Type ℓ} → Act W A → Act (W × T) A
  awake m (w, t) = ((m w).0, ((m w).1, t))

  abbrev pub watched : Watch T → Client W → Client (W × T)
  watched watch client = record {
    now = awake client.now;
    sleep = λ duration world.
        (tt, ((client.sleep duration world.0).1, watch.on_sleep duration world.1));
    get_config_map = λ namespace name. awake (client.get_config_map namespace name);
    create_config_map = λ config_map. awake (client.create_config_map config_map);
    update_config_map = λ config_map. awake (client.update_config_map config_map);
    delete_config_map = λ config_map. awake (client.delete_config_map config_map);
    list_config_maps = λ namespace labels. awake (client.list_config_maps namespace labels);
    get_deployment = λ namespace name. awake (client.get_deployment namespace name);
    update_deployment = λ deployment. awake (client.update_deployment deployment);
    get_replica_set = λ namespace name. awake (client.get_replica_set namespace name);
    list_pods = λ namespace labels world. (
      (client.list_pods namespace labels world.0).0,
      (
        (client.list_pods namespace labels world.0).1,
        watch.on_list (client.list_pods namespace labels world.0).0 world.1,
      ),
    );
    delete_pod = λ pod world. (
      (client.delete_pod pod world.0).0,
      (
        (client.delete_pod pod world.0).1,
        watch.on_delete pod (client.delete_pod pod world.0).0 world.1,
      ),
    );
    create_event = λ event. awake (client.create_event event);
  }

  -- The second action is the first one, and leaves the memory as it is.
  abbrev pub IsSilent {ℓ} : {A : Type ℓ} → Act W A → Act (W × T) A → Type ℓ
  IsSilent m m' = (w : W) (t : T) → m' (w, t) ≡ ((m w).0, ((m w).1, t))

  -- The second action is the first one, and remembers at most a list of pods.
  abbrev pub Listens : {A : Type 0} → Watch T → Act W A → Act (W × T) A → Type 0
  Listens watch m m' =
      (w : W) (t : T)
      → (heard : Option (Result ApiError (List Pod))) × (m' (w, t)
          ≡ ((m w).0, ((m w).1, after_list watch heard t)))

  pub silent-Listens :
      {A : Type 0} (watch : Watch T) (m : Act W A) (m' : Act (W × T) A)
      → IsSilent m m'
      → Listens watch m m'
  silent-Listens watch m m' silent w t = (none, silent w t)
