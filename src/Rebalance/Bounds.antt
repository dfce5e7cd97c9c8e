-- ===== src/Rebalance/Bounds.antt =====
-- What a rebalancing deletes.
use mathlib.Core.List.{Memᴰ}
use kube_smart_scheduler.Prelude.{
  ℕ, zero, suc, ◌≤◌, ◌≡◌, inl, inr, Bool-cases, true, false, List, [], ◌∷◌, take, leb, arith, All,
  All-Mem, All-append,
}
use kube_smart_scheduler.Prelude.Int.{ℤ, pos, ltb_ℤ}
use kube_smart_scheduler.Prelude.Result.{Result, ok, err}
use kube_smart_scheduler.GoText.{Text, text_eq}
use kube_smart_scheduler.GoMap.{Map, insert, get_or, Order}
use kube_smart_scheduler.GoMap.Laws.{get_or-nil, get_or-head, get_or-tail}
use kube_smart_scheduler.Kube.{Pod, Deployment, is_nil}
use kube_smart_scheduler.Client.{ApiError, Client, Act, ◌>>=◌}
use kube_smart_scheduler.Client.Always.{Always, Always-if, Always-bind}
use kube_smart_scheduler.State.{Codec}
use kube_smart_scheduler.Float.{FloatOps}
use kube_smart_scheduler.Rebalance.Select.{
  DriftReport, is_candidate, group_pods, excess_pods, select_pods_for_rebalancing,
}
use kube_smart_scheduler.Rebalance.Reconcile.{delete_pods, after_delete}

module _ {ℓ} (P : Pod → Type ℓ) where
  All-take : (n : ℕ) (pods : List Pod) → All P pods → All P (take n pods)
  All-take zero pods h = tt
  All-take (suc n) [] h = tt
  All-take (suc n) (pod ∷ pods) (p, ps) = (p, All-take n pods ps)

  abbrev AllGroups : Map (List Pod) → Type ℓ
  AllGroups groups = All (λ entry. All P entry.1) groups

  AllGroups-get_or :
      (key : Text) (groups : Map (List Pod)) → AllGroups groups → All P (get_or key groups [])
  AllGroups-get_or key [] h = rw (get_or-nil {V = List Pod} key []) tt
  AllGroups-get_or key ((j, pods) ∷ groups) (here, there) = elim (Bool-cases (text_eq j key)) [
    | inl same ↦ rw (get_or-head key j pods [] groups same) here
    | inr differ ↦ rw (get_or-tail key j pods [] groups differ) (AllGroups-get_or key groups there)
  ]

  AllGroups-insert :
      (key : Text) (pods : List Pod) (groups : Map (List Pod))
      → All P pods
      → AllGroups groups
      → AllGroups (insert key pods groups)
  unfolding insert
  AllGroups-insert key pods [] p h = (p, tt)
  AllGroups-insert key pods ((j, others) ∷ groups) p (here, there) =
      elim (Bool-cases (text_eq j key)) [
        | inl same ↦ rw same (p, there)
        | inr differ ↦ rw differ (here, AllGroups-insert key pods groups p there)
      ]

-- A pod of the list that may be deleted.
abbrev IsSelectable : List Pod → Pod → Type 0
IsSelectable listed pod = Memᴰ pod listed × (is_candidate pod ≡ true)

group_pods-AllGroups :
    (listed : List Pod) (o : Order Text) (n : ℕ) (pods : List Pod) (groups : Map (List Pod))
    → All (λ pod. Memᴰ pod listed) pods
    → AllGroups (IsSelectable listed) groups
    → AllGroups (IsSelectable listed) (group_pods o n pods groups)
unfolding group_pods
group_pods-AllGroups listed o n [] groups _ h = h
group_pods-AllGroups listed o n (pod ∷ pods) groups (here, there) h =
    elim (Bool-cases (is_candidate pod)) [
      | inl candidate ↦ rw candidate (
          group_pods-AllGroups listed o (suc n) pods _ there (
            AllGroups-insert _ _ _ groups
              (All-append _ _ (pod ∷ []) (AllGroups-get_or _ _ groups h) ((here, candidate), tt))
              h))
      | inr not_candidate ↦
          rw not_candidate (group_pods-AllGroups listed o (suc n) pods groups there h)
    ]

excess_pods-All {ℓ} :
    (P : Pod → Type ℓ) (groups : Map (List Pod)) (expected entries : Map ℤ)
    → AllGroups P groups
    → All P (excess_pods groups expected entries)
unfolding excess_pods
excess_pods-All P groups expected [] h = tt
excess_pods-All P groups expected ((key, actual) ∷ entries) h =
    let rest = excess_pods-All P groups expected entries h in
    elim (Bool-cases (ltb_ℤ (get_or key expected (pos 0)) actual)) [
      | inl more ↦
          rw more (All-append P _ _ (All-take P _ _ (AllGroups-get_or P key groups h)) rest)
      | inr enough ↦ rw enough rest
    ]

-- Whatever the drift report says, each pod selected for deletion is one of the pods listed, runs, and
-- is not being deleted.
pub select-All :
    {F : Type 0} (o : Order Text) (oc : Order ℤ) (pods : List Pod) (drift : DriftReport F)
    → All
        (λ pod. Memᴰ pod pods × (is_candidate pod ≡ true))
        (select_pods_for_rebalancing o oc pods drift)
unfolding select_pods_for_rebalancing
select-All o oc pods drift =
    excess_pods-All (IsSelectable pods) _ _ _
      (group_pods-AllGroups pods o 0 pods [] (All-Mem pods) tt)

module _ {W F : Type 0} (client : Client W) (codec : Codec) (fl : FloatOps F)
    (message_of : F → Text) (deployment : Deployment) (drift : F) where
  abbrev IsBounded : Act W ℕ → Type 0
  IsBounded = Always (λ n. n ≤ 1)

  after_delete-IsBounded :
      (rest : ℕ → Act W ℕ) (deleted : ℕ) (result : Result ApiError (Unit {0}))
      → leb 1 deleted ≡ false
      → ((n : ℕ) → n ≤ 1 → IsBounded (rest n))
      → IsBounded (after_delete client codec fl message_of rest deployment drift deleted result)
  unfolding after_delete
  after_delete-IsBounded rest deleted (err e) below h w = h deleted (ground arith) w
  after_delete-IsBounded rest deleted (ok done) below h w = h (suc deleted) (ground arith) _

  delete_from-IsBounded :
      (pods : List Pod) (deleted : ℕ)
      → deleted ≤ 1
      → IsBounded (delete_pods client codec fl message_of deployment drift pods deleted)
  unfolding delete_pods
  delete_from-IsBounded [] deleted h w = h
  delete_from-IsBounded (pod ∷ pods) deleted h w =
      let rest = delete_pods client codec fl message_of deployment drift pods in
      let go_on = after_delete client codec fl message_of rest deployment drift deleted in
      elim (Bool-cases (leb 1 deleted)) [
        | inl enough ↦ rw enough h
        | inr below ↦ rw below (
            Always-if (λ n. n ≤ 1) (is_nil pod.deletion_timestamp) (client.delete_pod pod >>= go_on)
              (rest deleted)
              (Always-bind (λ n. n ≤ 1) (client.delete_pod pod) go_on
                (λ result.
                  after_delete-IsBounded rest deleted result below (delete_from-IsBounded pods)))
              (delete_from-IsBounded pods deleted h) w)
      ]

  -- One call of performRebalancing deletes at most one pod, whatever the API answers.
  delete_pods-at_most_one :
      (pods : List Pod) (w : W)
      → (delete_pods client codec fl message_of deployment drift pods 0 w).0 ≤ 1
  delete_pods-at_most_one pods w = delete_from-IsBounded pods 0 (omega arith) w
