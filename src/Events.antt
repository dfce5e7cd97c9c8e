-- ===== src/Events.antt =====
-- The events that the controllers filter, and what their filters read of a deployment
-- (controllers/rebalance_controller.go, controllers/scheduler_controller.go).
use kube_smart_scheduler.Prelude.{Bool, ◌||◌, []}
use kube_smart_scheduler.Prelude.Int.{ℤ, ltb_ℤ}
use kube_smart_scheduler.GoText.{Text, codes}
use kube_smart_scheduler.GoMap.{get_or}
use kube_smart_scheduler.Kube.{Pod, Deployment}

-- The dynamic type of a client.Object.
pub data Object : Type 0 where
  deployment_object : Deployment → Object
  pod_object : Pod → Object
  other_object : Object

pub data Event : Type 0 where
  create_event : Object → Event
  update_event : Object → Object → Event  -- the old object and the new one
  delete_event : Object → Event

abbrev pub strategy_key : Text
strategy_key = codes "smart-scheduler.io/schedule-strategy"

-- The empty text where the annotation is missing.
abbrev pub strategy_of : Deployment → Text
strategy_of deployment = get_or strategy_key deployment.annotations []

abbrev pub differ_ℤ : ℤ → ℤ → Bool
differ_ℤ a b = ltb_ℤ a b || ltb_ℤ b a
