-- ===== src/Mutator/Answers.antt =====
-- What PodMutator.Handle answers, whatever the API server and the clock do.
use kube_smart_scheduler.Prelude.{◌≡◌, refl, true, Option, none, some}
use kube_smart_scheduler.Prelude.Int.{ℤ}
use kube_smart_scheduler.Prelude.Result.{Result, ok}
use kube_smart_scheduler.GoText.{Text}
use kube_smart_scheduler.GoMap.{Order}
use kube_smart_scheduler.Strategy.{PlacementStrategy}
use kube_smart_scheduler.Strategy.Parse.{parse_placement_strategy}
use kube_smart_scheduler.Kube.{Pod}
use kube_smart_scheduler.Client.{Client}
use kube_smart_scheduler.Client.Always.{Always}
use kube_smart_scheduler.Float.{FloatOps}
use kube_smart_scheduler.State.{Codec}
use kube_smart_scheduler.Mutator.{Response, allowed}
use kube_smart_scheduler.Mutator.Handle.{handle}
use kube_smart_scheduler.Mutator.Merged.{is_processed, IsPlacedBy}
use kube_smart_scheduler.Mutator.Placed.{Answers}

-- The pod is placed by a rule of a strategy that the parser has accepted.
abbrev pub IsPlaced : Pod → Pod → Type 0
IsPlaced pod modified =
    (annotation : Text) × (strategy : PlacementStrategy) × (parse_placement_strategy annotation
      ≡ ok strategy)
    × IsPlacedBy strategy pod modified

module _ {W F : Type 0} (client : Client W) (codec : Codec) (fl : FloatOps F)
    (marshal_pod : Pod → Option Text) where
  abbrev pub LetsIn : Pod → Response → Type 0
  LetsIn pod = Answers marshal_pod (λ message. Unit) (IsPlaced pod) pod

  -- A pod that is marked as processed is let in unchanged, and nothing is asked of the API server.
  handle-processed :
      (o : Order Text) (oc : Order ℤ) (pod : Pod) (w : W)
      → is_processed pod ≡ true
      → handle client codec fl marshal_pod o oc (some pod) w ≡ (allowed none, w)
  unfolding handle
  handle-processed o oc pod w processed = rw processed refl
