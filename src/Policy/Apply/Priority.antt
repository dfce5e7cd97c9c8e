-- ===== src/Policy/Apply/Priority.antt =====
-- What a deployment's annotations read after a policy is applied.
use kube_smart_scheduler.Prelude.{◌≡◌, refl, some, if◌then◌else◌}
use kube_smart_scheduler.GoText.{Text, text_eq}
use kube_smart_scheduler.GoText.Number.{itoa}
use kube_smart_scheduler.GoMap.{Map, lookup, insert}
use kube_smart_scheduler.GoMap.Laws.{lookup-insert}
use kube_smart_scheduler.GoMap.Unique.{IsMap, IsMap-insert}
use kube_smart_scheduler.Api.{PodPlacementPolicy}
use kube_smart_scheduler.Kube.{Deployment}
use kube_smart_scheduler.Policy.Apply.{strategy_key, name_key, priority_key, applied_key, annotate}

lookup-insert_four :
    {V : Type 0} (a p n s key : Text) (va vp vn vs : V) (m : Map V)
    → lookup key (insert a va (insert p vp (insert n vn (insert s vs m)))) ≡ (
        if text_eq a key
        then some va
        else if text_eq p key
        then some vp
        else if text_eq n key
        then some vn
        else if text_eq s key
        then some vs
        else lookup key m)
lookup-insert_four a p n s key va vp vn vs m =
    rw
      (
        lookup-insert a key va (insert p vp (insert n vn (insert s vs m))),
        lookup-insert p key vp (insert n vn (insert s vs m)),
        lookup-insert n key vn (insert s vs m),
        lookup-insert s key vs m,
      )
      refl

module _ {F S : Type 0} (policy : PodPlacementPolicy F S) (strategy_annotation time : Text)
    (deployment : Deployment) where
  pub lookup-annotate :
      (key : Text)
      → lookup key (annotate policy strategy_annotation time deployment).annotations ≡ (
          if text_eq applied_key key
          then some time
          else if text_eq priority_key key
          then some (itoa policy.spec.priority)
          else if text_eq name_key key
          then some policy.name
          else if text_eq strategy_key key
          then some strategy_annotation
          else lookup key deployment.annotations)
  unfolding annotate
  lookup-annotate key =
      lookup-insert_four applied_key priority_key name_key strategy_key key time
        (itoa policy.spec.priority) policy.name strategy_annotation deployment.annotations

  pub lookup-annotate_name :
      lookup name_key (annotate policy strategy_annotation time deployment).annotations
      ≡ some policy.name
  unfolding text_eq
  lookup-annotate_name = lookup-annotate name_key

  pub lookup-annotate_priority :
      lookup priority_key (annotate policy strategy_annotation time deployment).annotations
      ≡ some (itoa policy.spec.priority)
  unfolding text_eq
  lookup-annotate_priority = lookup-annotate priority_key

  pub lookup-annotate_strategy :
      lookup strategy_key (annotate policy strategy_annotation time deployment).annotations
      ≡ some strategy_annotation
  unfolding text_eq
  lookup-annotate_strategy = lookup-annotate strategy_key

  pub IsMap-annotate :
      IsMap deployment.annotations
      → IsMap (annotate policy strategy_annotation time deployment).annotations
  unfolding annotate
  IsMap-annotate h =
      IsMap-insert _ _ _ (IsMap-insert _ _ _ (IsMap-insert _ _ _ (IsMap-insert _ _ _ h)))
