-- ===== src/Policy/Resources.antt =====
-- What the policy controller asks of the API server beyond the requests of every controller, and of
-- metav1 for label selectors. Both are parameters.
use kube_smart_scheduler.Prelude.{Bool, Option, List}
use kube_smart_scheduler.Prelude.Result.{Result}
use kube_smart_scheduler.GoText.{Text}
use kube_smart_scheduler.GoMap.{Map}
use kube_smart_scheduler.Api.{PodPlacementPolicy}
use kube_smart_scheduler.Kube.{Deployment}
use kube_smart_scheduler.Client.{ApiError, Act}

-- `S` is metav1.LabelSelector and `L` is labels.Selector.
pub record Selectors (S L : Type 0) : Type 0 where
  pub as_selector : S → Option L  -- metav1.LabelSelectorAsSelector
  pub matches : L → Map Text → Bool

pub record PolicyClient (W F S L : Type 0) : Type 0 where
  pub get_policy : Text → Text → Act W (Result ApiError (PodPlacementPolicy F S))
  pub list_policies : Text → Act W (Result ApiError (List (PodPlacementPolicy F S)))
  pub update_policy_status : PodPlacementPolicy F S → Act W (Result ApiError (Unit {0}))
  pub list_deployments : Text → Act W (Result ApiError (List Deployment))
  pub list_deployments_matching : Text → L → Act W (Result ApiError (List Deployment))

-- The errors by the messages that wrap them.
pub data PolicyError : Type 0 where
  api_failed : ApiError → PolicyError
  invalid_label_selector : PolicyError
  list_deployments_failed : ApiError → PolicyError
