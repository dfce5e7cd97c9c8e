-- ===== src/Policy/Apply/Highest.antt =====
-- Policies that are applied to one deployment in turn (applyPolicyToDeployment and
-- hasHigherPriorityPolicy in controllers/podplacementpolicy_controller.go).
use mathlib.Core.Path.{subst}
use mathlib.Core.List.{Memᴰ}
use kube_smart_scheduler.Prelude.{
  ◌+◌, ◌≤◌, ◌<◌, ◌≡◌, ◌≢◌, refl, sym, ap, ◌∙◌, inl, inr, true, false, Bool-cases, none, some, List,
  [], ◌∷◌, All, arith, ltb→lt, not_ltb→le,
}
use kube_smart_scheduler.Prelude.Int.{pos_part, neg_part, ltb_ℤ, ◌≤ℤ◌}
use kube_smart_scheduler.Prelude.Result.{ok, ok-injective}
use kube_smart_scheduler.GoText.{Text}
use kube_smart_scheduler.GoText.Number.{itoa}
use kube_smart_scheduler.GoMap.{Order, IsOrder, lookup}
use kube_smart_scheduler.Api.{DeploymentReference, PodPlacementPolicy}
use kube_smart_scheduler.Kube.{Deployment}
use kube_smart_scheduler.Client.{Client}
use kube_smart_scheduler.Float.{FloatOps}
use kube_smart_scheduler.State.{Codec}
use kube_smart_scheduler.Policy.Convert.{convert_strategy_to_annotation}
use kube_smart_scheduler.Policy.Apply.{
  strategy_key, name_key, priority_key, has_higher_priority_policy, annotate, write_annotations,
  apply_policy_to_deployment,
}
use kube_smart_scheduler.Policy.Apply.Priority.{
  lookup-annotate_name, lookup-annotate_priority, lookup-annotate_strategy,
}
use kube_smart_scheduler.Policy.Apply.Held.{
  HoldsDeployments, apply_policy_to_deployment-HoldsAnnotated,
}
use kube_smart_scheduler.Policy.Apply.Way.{
  priority_of, has_higher-itoa, has_higher-free, IsProper, converts, after_update-applied,
}

-- The deployment of this name that the API server holds.
abbrev pub IsHeld :
    {W : Type 0} {client : Client W}
    → HoldsDeployments client
    → Text
    → Text
    → Deployment
    → W
    → Type 0
IsHeld server namespace name deployment w =
    (server.held w namespace name ≡ some deployment)
    × (deployment.namespace ≡ namespace)
    × (deployment.name ≡ name)

IsHeld-answer :
    {W : Type 0} {client : Client W} (server : HoldsDeployments client) (namespace name : Text)
    (deployment answered : Deployment) (w : W)
    → IsHeld server namespace name deployment w
    → client.get_deployment namespace name w ≡ (ok answered, w)
    → deployment ≡ answered
IsHeld-answer server namespace name deployment answered w (held, _, _) answer =
    ok-injective (ap (λ a. a.0) (sym (server.get_held namespace name deployment w held) ∙ answer))

module _ {W F : Type 0} (client : Client W) (codec : Codec) (fl : FloatOps F) where
  module _ {S : Type 0} where
    -- Policies that are applied in turn to the deployment of this name, as it is read each time, each
    -- under an order of its loops in which they visit every entry of a map once.
    pub data Turns (namespace name : Text) : List (PodPlacementPolicy F S) → W → W → Type 0 where
      done : {w : W} → Turns namespace name [] w w
      turn :
          {policy : PodPlacementPolicy F S} {policies : List (PodPlacementPolicy F S)} {w w' : W}
          {deployment : Deployment}
          → (o : Order Text) → IsOrder o
          → client.get_deployment namespace name w ≡ (ok deployment, w)
          → Turns namespace name policies
              (apply_policy_to_deployment client codec fl o policy deployment w).1
              w'
          → Turns namespace name (policy ∷ policies) w w'

    module _ (server : HoldsDeployments client) (namespace name : Text) where
      -- The annotations of the deployment held name the policy, with its priority and the annotation
      -- that its strategy is converted to.
      abbrev pub Has : PodPlacementPolicy F S → W → Type 0
      Has policy w =
          (deployment : Deployment) × IsHeld server namespace name deployment w
          × (o : Order Text) × IsOrder o
          × (annotation : Text) × (convert_strategy_to_annotation o policy.spec.strategy
              ≡ ok annotation)
          × (lookup name_key deployment.annotations ≡ some policy.name)
          × (lookup priority_key deployment.annotations ≡ some (itoa policy.spec.priority))
          × (lookup strategy_key deployment.annotations ≡ some annotation)

      -- One of the policies has the deployment, and none has a higher priority.
      abbrev pub IsHighest : List (PodPlacementPolicy F S) → W → Type 0
      IsHighest policies w =
          (policy : PodPlacementPolicy F S) × Memᴰ policy policies
          × Has policy w
          × All (λ other. other.spec.priority ≤ℤ policy.spec.priority) policies

      gives_way :
          (o : Order Text) (policy : PodPlacementPolicy F S) (deployment : Deployment) (w : W)
          → has_higher_priority_policy deployment policy ≡ true
          → (apply_policy_to_deployment client codec fl o policy deployment w).1 ≡ w
      unfolding apply_policy_to_deployment
      gives_way o policy deployment w higher = rw higher refl

      module _ (accepts : (d : Deployment) (w : W) → (client.update_deployment d w).0 ≡ ok tt) where
        is_applied :
            (o : Order Text) (policy : PodPlacementPolicy F S) (deployment : Deployment)
            (annotation : Text) (w : W)
            → has_higher_priority_policy deployment policy ≡ false
            → convert_strategy_to_annotation o policy.spec.strategy ≡ ok annotation
            → (reference : DeploymentReference F) × ((apply_policy_to_deployment client codec fl o
                  policy deployment w).0
                ≡ ok (some reference))
        unfolding apply_policy_to_deployment write_annotations
        is_applied o policy deployment annotation w free converted =
            let annotated =
              annotate policy annotation (codec.format_time (client.now w).0) deployment in
            let answer = client.update_deployment annotated (client.now w).1 in
            rw (free, converted)
              (after_update-applied client codec fl annotated answer.0 answer.1
                (accepts annotated (client.now w).1))

        takes :
            (o : Order Text) (policy : PodPlacementPolicy F S) (deployment : Deployment) (w : W)
            → IsOrder o
            → policy.spec.strategy.rules ≢ []
            → IsHeld server namespace name deployment w
            → has_higher_priority_policy deployment policy ≡ false
            → Has policy (apply_policy_to_deployment client codec fl o policy deployment w).1
        unfolding convert_strategy_to_annotation annotate
        takes o policy deployment w order ruled (held, spaced, named) free =
            let (annotation, converted) =
              converts o policy.spec.strategy.base policy.spec.strategy.rules ruled in
            let (reference, applied) = is_applied o policy deployment annotation w free converted in
            let (time, there) =
              apply_policy_to_deployment-HoldsAnnotated client codec fl server policy deployment o
                annotation w converted applied in
            let u = (apply_policy_to_deployment client codec fl o policy deployment w).1 in
            (
              annotate policy annotation time deployment,
              (
                sym (ap (λ n. server.held u n name) spaced)
                    ∙ sym (ap (λ n. server.held u deployment.namespace n) named)
                    ∙ there,
                spaced,
                named,
              ),
              o,
              order,
              annotation,
              converted,
              lookup-annotate_name policy annotation time deployment,
              lookup-annotate_priority policy annotation time deployment,
              lookup-annotate_strategy policy annotation time deployment,
            )

        keep_turn :
            (policy next : PodPlacementPolicy F S) (policies : List (PodPlacementPolicy F S))
            (w : W)
            → IsHighest (policy ∷ policies) w
            → pos_part (priority_of next) + neg_part (priority_of policy)
              < pos_part (priority_of policy) + neg_part (priority_of next)
            → IsHighest (policy ∷ next ∷ policies) w
        keep_turn policy next policies w (winner, Memᴰ.head e, has, (first, rest)) lt =
            (winner, Memᴰ.head e, has, (first, (omega arith, rest)))
        keep_turn policy next policies w (winner, Memᴰ.tail m, has, (first, rest)) lt =
            (winner, Memᴰ.tail (Memᴰ.tail m), has, (first, (omega arith, rest)))

        pass_turn :
            (policy next : PodPlacementPolicy F S) (policies : List (PodPlacementPolicy F S))
            (w : W)
            → IsHighest (next ∷ policies) w
            → pos_part (priority_of policy) + neg_part (priority_of next)
              ≤ pos_part (priority_of next) + neg_part (priority_of policy)
            → IsHighest (policy ∷ next ∷ policies) w
        pass_turn policy next policies w (winner, member, has, (first, rest)) le =
            (winner, Memᴰ.tail member, has, (omega arith, (first, rest)))

        Turns-Has :
            (policy : PodPlacementPolicy F S) (policies : List (PodPlacementPolicy F S)) (w w' : W)
            → IsProper policy
            → All IsProper policies
            → Has policy w
            → Turns namespace name policies w w'
            → IsHighest (policy ∷ policies) w'
        Turns-Has policy [] w w' proper _ has Turns.done =
            (policy, Memᴰ.head refl, has, (omega arith, tt))
        Turns-Has policy (next ∷ policies) w w' proper (next_proper, others) has
              (Turns.turn {deployment = answered} o order answer rest) =
            let (deployment, is_held, _, _, _, _, _, ranked, _) = has in
            let same = IsHeld-answer server namespace name deployment answered w is_held answer in
            let ranks =
              ap (λ d. has_higher_priority_policy d next) (sym same)
              ∙ has_higher-itoa policy next deployment proper.0 ranked in
            elim (Bool-cases (ltb_ℤ (priority_of next) (priority_of policy))) [
              | inl lower ↦
                  keep_turn policy next policies w'
                    (Turns-Has policy policies _ w' proper others
                      (subst (Has policy) (sym (gives_way o next answered w (ranks ∙ lower))) has)
                      rest)
                    (ltb→lt _ _ lower)
              | inr higher ↦
                  pass_turn policy next policies w'
                    (Turns-Has next policies _ w' next_proper others
                      (takes o next answered w order next_proper.1
                        (subst (λ d. IsHeld server namespace name d w) same is_held)
                        (ranks ∙ higher))
                      rest)
                    (not_ltb→le _ _ higher)
            ]

        -- If policies, each with a rule and with a priority that is a value of an `int32`, are applied
        -- in turn, in any sequence, to a deployment that no policy has yet, then in the end one of them
        -- has the deployment that the API server holds, with its name, its priority and the annotation
        -- of its strategy, and none of them has a higher priority. The server holds what it accepts,
        -- and accepts every update.
        pub Turns-IsHighest :
            (policy : PodPlacementPolicy F S) (policies : List (PodPlacementPolicy F S))
            (deployment : Deployment) (w w' : W)
            → All IsProper (policy ∷ policies)
            → IsHeld server namespace name deployment w
            → lookup priority_key deployment.annotations ≡ none
            → Turns namespace name (policy ∷ policies) w w'
            → IsHighest (policy ∷ policies) w'
        Turns-IsHighest policy policies deployment w w' (proper, others) is_held free
              (Turns.turn {deployment = answered} o order answer rest) =
            let same = IsHeld-answer server namespace name deployment answered w is_held answer in
            Turns-Has policy policies _ w' proper others
              (takes o policy answered w order proper.1
                (subst (λ d. IsHeld server namespace name d w) same is_held)
                (ap (λ d. has_higher_priority_policy d policy) (sym same)
                  ∙ has_higher-free policy deployment free))
              rest
