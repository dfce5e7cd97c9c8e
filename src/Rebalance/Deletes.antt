-- ===== src/Rebalance/Deletes.antt =====
-- The pods that performRebalancing deletes (controllers/rebalance_controller.go).
pub mod Requests
use mathlib.Core.List.{Memᴰ}
use kube_smart_scheduler.Prelude.{
  ℕ, suc, ◌+◌, ◌*◌, ◌≤◌, ◌≡◌, refl, sym, ap, ◌∙◌, inl, inr, Bool-cases, Bool, true, false, Option,
  none, some, List, [], ◌∷◌, ◌++◌, append-nil, append_assoc, length, ltb, leb, arith, All, All-map,
  if◌then◌else◌,
}
use kube_smart_scheduler.Prelude.Int.{ℤ}
use kube_smart_scheduler.Prelude.Result.{Result, ok, err}
use kube_smart_scheduler.GoText.{Text, codes}
use kube_smart_scheduler.GoMap.{lookup, Order, ◌▹◌}
use kube_smart_scheduler.Strategy.{PlacementStrategy}
use kube_smart_scheduler.Strategy.Parse.{ParseError, parse_placement_strategy}
use kube_smart_scheduler.Kube.{Pod, Deployment, is_nil}
use kube_smart_scheduler.Client.{ApiError, not_found, conflict, other, Act, ◌>>=◌, pure, Client}
use kube_smart_scheduler.Client.Watched.{
  gone_with, pods_of, Memory, deletions, watched, IsSilent, after_list, Listens,
}
use kube_smart_scheduler.Float.{FloatOps}
use kube_smart_scheduler.State.{PlacementState, StateError, Codec}
use kube_smart_scheduler.Controller.{ReconcileResult, minute, requeue, failed}
use kube_smart_scheduler.Rebalance.Select.{DriftReport, is_candidate, select_pods_for_rebalancing}
use kube_smart_scheduler.Rebalance.Bounds.{select-All}
use kube_smart_scheduler.Rebalance.Reconcile.{
  report_of, listed_report, calculate_drift, create_rebalance_event, after_delete, delete_pods,
  listed_rebalancing, perform_rebalancing, with_report, with_state, with_strategy, with_annotation,
  handle_deployment_deletion, with_deployment, reconcile,
}

-- The second action is the first one, and remembers pods that it deletes, which are such, and no list.
abbrev pub Removes : {W A : Type 0} → (List Pod → Type 0) → Act W A → Act (W × Memory) A → Type 0
Removes {W} Allowed m m' =
    (w : W) (before : Memory)
    → (gone : List Pod) × Allowed gone
      × (m' (w, before) ≡ ((m w).0, ((m w).1, (before.0, before.1 ++ gone))))

-- With n pods deleted before, at most one in all, and only pods of the list that run and are not being
-- deleted.
abbrev pub AreSpared : List Pod → ℕ → List Pod → Type 0
AreSpared listed n gone =
    (n + length gone ≤ 1) × All (λ pod. (is_candidate pod ≡ true) × Memᴰ pod listed) gone

-- The second action is the first one, and remembers the pods of the lists that it is given, and at
-- most one pod that it deletes: one of those listed, that runs and is not being deleted.
abbrev pub Deletes : {W A : Type 0} → Act W A → Act (W × Memory) A → Type 0
Deletes {W} m m' =
    (w : W) (before : Memory)
    → (listed : List Pod) × (gone : List Pod) × AreSpared listed 0 gone
      × (m' (w, before) ≡ ((m w).0, ((m w).1, (before.0 ++ listed, before.1 ++ gone))))

pub silent-Deletes :
    {W A : Type 0} (m : Act W A) (m' : Act (W × Memory) A) → IsSilent m m' → Deletes m m'
silent-Deletes m m' silent w before = (
  [],
  [],
  (omega arith, tt),
  silent w before
      ∙ ap (λ pods. ((m w).0, ((m w).1, (pods, before.1)))) (sym (append-nil before.0))
      ∙ ap (λ pods. ((m w).0, ((m w).1, (before.0 ++ [], pods)))) (sym (append-nil before.1)),
)

pub pure-Deletes : {W A : Type 0} (a : A) → Deletes {W = W} (pure a) (pure a)
pure-Deletes a = silent-Deletes (pure a) (pure a) (λ w before. refl)

if-Removes :
    {W A : Type 0} (Allowed : List Pod → Type 0) (b : Bool) (m k : Act W A)
    (m' k' : Act (W × Memory) A)
    → Removes Allowed m m'
    → Removes Allowed k k'
    → Removes Allowed (if b then m else k) (if b then m' else k')
if-Removes Allowed true m k m' k' h g = h
if-Removes Allowed false m k m' k' h g = g

pub if-Deletes :
    {W A : Type 0} (b : Bool) (m k : Act W A) (m' k' : Act (W × Memory) A)
    → Deletes m m'
    → Deletes k k'
    → Deletes (if b then m else k) (if b then m' else k')
if-Deletes true m k m' k' h g = h
if-Deletes false m k m' k' h g = g

heard_pods : (heard : Option (Result ApiError (List Pod))) → List Pod
heard_pods none = []
heard_pods (some listed) = pods_of listed

after_list-deletions :
    (heard : Option (Result ApiError (List Pod))) (memory : Memory)
    → after_list deletions heard memory ≡ (memory.0 ++ heard_pods heard, memory.1)
unfolding heard_pods
after_list-deletions none memory = ap (λ pods. (pods, memory.1)) (sym (append-nil memory.0))
after_list-deletions (some listed) memory = refl

Memᴰ-behind : {pod : Pod} (front pods : List Pod) → Memᴰ pod pods → Memᴰ pod (front ++ pods)
Memᴰ-behind [] pods member = member
Memᴰ-behind (first ∷ front) pods member = Memᴰ.tail (Memᴰ-behind front pods member)

-- What is listed before a deletion is remembered too.
pub listen-Deletes :
    {W A B : Type 0} (m : Act W A) (m' : Act (W × Memory) A) (k : A → Act W B)
    (k' : A → Act (W × Memory) B)
    → Listens deletions m m'
    → ((a : A) → Deletes (k a) (k' a))
    → Deletes (m >>= k) (m' >>= k')
listen-Deletes m m' k k' listens then_deletes w before =
    let (heard, same) = listens w before in
    let front = heard_pods heard in
    let (listed, gone, (few, spared), end) =
      then_deletes (m w).0 (m w).1 (before.0 ++ front, before.1) in
    let last = k (m w).0 (m w).1 in
    (
      front ++ listed,
      gone,
      (
        few,
        All-map gone (λ pod (candidate, member). (candidate, Memᴰ-behind front listed member))
            spared,
      ),
      ap (λ done. k' done.0 done.1)
            (same ∙ ap (λ t. ((m w).0, ((m w).1, t))) (after_list-deletions heard before))
          ∙ end
          ∙ ap (λ pods. (last.0, (last.1, (pods, before.1 ++ gone))))
              (append_assoc before.0 front listed),
    )

module _ {W F : Type 0} (client : Client W) (codec : Codec) (fl : FloatOps F)
    (message_of : F → Text) where
  abbrev pub recording : Client (W × Memory)
  recording = watched deletions client

  after_delete-Removes :
      (listed : List Pod) (rest : ℕ → Act W ℕ) (rest' : ℕ → Act (W × Memory) ℕ)
      (deployment : Deployment) (drift : F) (n : ℕ) (pod : Pod)
      (result : Result ApiError (Unit {0})) (w : W) (before : Memory)
      → (is_candidate pod ≡ true) × Memᴰ pod listed
      → leb 1 n ≡ false
      → ((k : ℕ) → k ≤ 1 → Removes (AreSpared listed k) (rest k) (rest' k))
      → let done = after_delete client codec fl message_of rest deployment drift n result w in
        (gone : List Pod) × AreSpared listed n gone
        × (after_delete recording codec fl message_of rest' deployment drift n result
              (w, (before.0, before.1 ++ gone_with pod result))
            ≡ (done.0, (done.1, (before.0, before.1 ++ gone))))
  unfolding after_delete create_rebalance_event
  after_delete-Removes listed rest rest' deployment drift n pod (err e) w before candidate below h =
      let (gone, spared, same) = h n (ground arith) w (before.0, before.1 ++ []) in
      (
        gone,
        spared,
        same
            ∙ ap (λ pods. ((rest n w).0, ((rest n w).1, (before.0, pods))))
                (append_assoc before.1 [] gone),
      )
  after_delete-Removes listed rest rest' deployment drift n pod (ok done) w before candidate below
        h =
      let w' = (create_rebalance_event client codec fl message_of deployment drift w).1 in
      let (gone, (few, running), same) =
        h (suc n) (ground arith) w' (before.0, before.1 ++ pod ∷ []) in
      (
        pod ∷ gone,
        (omega arith, (candidate, running)),
        same
            ∙ ap (λ pods. ((rest (suc n) w').0, ((rest (suc n) w').1, (before.0, pods))))
                (append_assoc before.1 (pod ∷ []) gone),
      )

  delete_pods-Removes :
      (listed : List Pod) (deployment : Deployment) (drift : F) (pods : List Pod) (n : ℕ)
      → All (λ pod. (is_candidate pod ≡ true) × Memᴰ pod listed) pods
      → n ≤ 1
      → Removes
          (AreSpared listed n)
          (delete_pods client codec fl message_of deployment drift pods n)
          (delete_pods recording codec fl message_of deployment drift pods n)
  unfolding delete_pods
  delete_pods-Removes listed deployment drift [] n _ few = λ w before.
      ([], (omega arith, tt), ap (λ pods. (n, (w, (before.0, pods)))) (sym (append-nil before.1)))
  delete_pods-Removes listed deployment drift (pod ∷ pods) n (candidate, others) few =
      elim (Bool-cases (leb 1 n)) [
        | inl enough ↦ rw enough (λ w before. (
          [],
          (omega arith, tt),
          ap (λ gone. (n, (w, (before.0, gone)))) (sym (append-nil before.1)),
        ))
        | inr below ↦ rw below (
            if-Removes (AreSpared listed n) (is_nil pod.deletion_timestamp) _ _ _ _
              (λ w before.
                let answer = client.delete_pod pod w in
                after_delete-Removes listed
                  (delete_pods client codec fl message_of deployment drift pods)
                  (delete_pods recording codec fl message_of deployment drift pods) deployment drift
                  n pod answer.0 answer.1 before candidate below
                  (λ k le. delete_pods-Removes listed deployment drift pods k others le))
              (delete_pods-Removes listed deployment drift pods n others few))
      ]

  listed_rebalancing-Removes :
      (o : Order Text) (oc : Order ℤ) (deployment : Deployment) (drift : DriftReport F)
      (listed : Result ApiError (List Pod))
      → Removes
          (AreSpared (pods_of listed) 0)
          (listed_rebalancing client codec fl message_of o oc deployment drift listed)
          (listed_rebalancing recording codec fl message_of o oc deployment drift listed)
  unfolding listed_rebalancing
  listed_rebalancing-Removes o oc deployment drift (err e) = λ w before. (
    [],
    (omega arith, tt),
    ap (λ pods. (failed e, (w, (before.0, pods)))) (sym (append-nil before.1)),
  )
  listed_rebalancing-Removes o oc deployment drift (ok pods) = λ w before.
      let selected = select_pods_for_rebalancing o oc pods drift in
      let (gone, spared, same) =
        delete_pods-Removes pods deployment drift.drift_percentage selected 0
          (All-map selected (λ pod (member, candidate). (candidate, member))
            (select-All o oc pods drift))
          (omega arith) w before in
      (
        gone,
        spared,
        ap (λ done. (requeue (if ltb 0 done.0 then 2 * minute else 5 * minute), done.1)) same,
      )

  pub with_report-Deletes :
      (o : Order Text) (oc : Order ℤ) (deployment : Deployment)
      (report : Result ApiError (DriftReport F))
      → Deletes
          (with_report client codec fl message_of o oc deployment report)
          (with_report recording codec fl message_of o oc deployment report)
  unfolding with_report perform_rebalancing
  with_report-Deletes o oc deployment (err e) = pure-Deletes (requeue (2 * minute))
  with_report-Deletes o oc deployment (ok drift) =
      if-Deletes drift.requires_rebalance _ _ _ _
        (λ w before.
          let listed = client.list_pods deployment.namespace deployment.match_labels w in
          let (gone, spared, same) =
            listed_rebalancing-Removes o oc deployment drift listed.0 listed.1
              (before.0 ++ pods_of listed.0, before.1) in
          (pods_of listed.0, gone, spared, same))
        (pure-Deletes (requeue (10 * minute)))
