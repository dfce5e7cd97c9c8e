-- ===== src/Policy/Cleanup/Undo.antt =====
-- Deleting a policy undoes what applying it wrote.
use kube_smart_scheduler.Prelude.{
  ◌≡◌, refl, ap, ◌∙◌, Bool, true, ◌||◌, Option, none, some, arith, if◌then◌else◌,
}
use kube_smart_scheduler.GoText.{Text, text_eq, text_eq_refl}
use kube_smart_scheduler.GoText.Number.{itoa}
use kube_smart_scheduler.GoMap.{Map, lookup, delete}
use kube_smart_scheduler.GoMap.Unique.{IsMap, IsMap-delete, lookup-delete}
use kube_smart_scheduler.Api.{PodPlacementPolicy}
use kube_smart_scheduler.Kube.{Deployment}
use kube_smart_scheduler.Policy.Apply.{strategy_key, name_key, priority_key, applied_key, annotate}
use kube_smart_scheduler.Policy.Apply.Priority.{
  lookup-annotate, lookup-annotate_name, IsMap-annotate,
}
use kube_smart_scheduler.Policy.Cleanup.{is_named, has_policy, remove_annotations}

-- The keys that a policy writes.
abbrev pub is_policy_key : Text → Bool
is_policy_key key =
    text_eq applied_key key
    || text_eq priority_key key
    || text_eq name_key key
    || text_eq strategy_key key

lookup-delete_two :
    {V : Type 0} (j k key : Text) (m : Map V)
    → IsMap m
    → lookup key (delete j (delete k m))
      ≡ (if text_eq j key then none else if text_eq k key then none else lookup key m)
lookup-delete_two j k key m h =
    lookup-delete j key (delete k m) (IsMap-delete k m h) ∙ rw (lookup-delete k key m h) refl

any_of_four {ℓ} :
    {A : Type ℓ} (a p n s : Bool) (o : Option A)
    → (if a then none else if p then none else if n then none else if s then none else o)
      ≡ (if a || p || n || s then none else o)
any_of_four a p n s o = ground arith

lookup-delete_four :
    {V : Type 0} (a p n s key : Text) (m : Map V)
    → IsMap m
    → lookup key (delete a (delete p (delete n (delete s m)))) ≡ (
        if text_eq a key || text_eq p key || text_eq n key || text_eq s key
        then none
        else lookup key m)
lookup-delete_four a p n s key m h =
    lookup-delete_two a p key (delete n (delete s m))
      (IsMap-delete n (delete s m) (IsMap-delete s m h))
    ∙ rw (lookup-delete_two n s key m h)
        (any_of_four (text_eq a key) (text_eq p key) (text_eq n key) (text_eq s key) (lookup key m))

if_gone {ℓ} :
    {A : Type ℓ} (a p n s : Bool) (va vp vn vs o : Option A)
    → (if a || p || n || s
        then none
        else if a
        then va
        else if p
        then vp
        else if n
        then vn
        else if s
        then vs
        else o)
      ≡ (if a || p || n || s then none else o)
if_gone a p n s va vp vn vs o = ground arith

-- A deployment to which a policy has been applied is found when that policy is deleted, by the
-- policy's name. Without the annotations that are removed then, each key reads as before the policy
-- was applied, but for the four keys that policies use, which are gone.
pub remove_annotations-annotate :
    {F S : Type 0} (policy : PodPlacementPolicy F S) (strategy_annotation time key : Text)
    (deployment : Deployment)
    → IsMap deployment.annotations
    → (has_policy policy.name (annotate policy strategy_annotation time deployment) ≡ true)
      × (lookup key
            (remove_annotations (annotate policy strategy_annotation time deployment)).annotations
          ≡ (if is_policy_key key then none else lookup key deployment.annotations))
unfolding has_policy remove_annotations
remove_annotations-annotate policy strategy_annotation time key deployment unique =
    let annotated = annotate policy strategy_annotation time deployment in
    (
      ap (λ o. is_named o policy.name)
            (lookup-annotate_name policy strategy_annotation time deployment)
          ∙ text_eq_refl policy.name,
      lookup-delete_four applied_key priority_key name_key strategy_key key annotated.annotations
            (IsMap-annotate policy strategy_annotation time deployment unique)
          ∙ ap (λ o. if is_policy_key key then none else o)
              (lookup-annotate policy strategy_annotation time deployment key)
          ∙ if_gone (text_eq applied_key key) (text_eq priority_key key) (text_eq name_key key)
              (text_eq strategy_key key) (some time) (some (itoa policy.spec.priority))
              (some policy.name) (some strategy_annotation) (lookup key deployment.annotations),
    )
