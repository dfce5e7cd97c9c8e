-- ===== src/Lib.antt =====
-- kube-SmartScheduler places the pods of a Kubernetes deployment by a strategy: the first `base`
-- pods go by the first rule, the others are shared out by weight. A custom resource
-- PodPlacementPolicy holds the strategy; the policy controller writes it into an annotation of
-- the deployment; the admission webhook parses the annotation for every new pod, chooses a rule
-- from the counts that the state manager keeps in a ConfigMap, and patches the pod; the
-- rebalance controller compares the counts with what the strategy asks for and deletes pods of
-- rules that have too many.
--
-- The files, and the code that they are about:
--
-- Strategy, Strategy/Parse: webhook/placement_strategy.go, the types and ParsePlacementStrategy
--   with all that it calls. A parameter that is not known is passed over, as there. An error
--   keeps what its message shows. Strategy/Parse/Names, Params, AffinityParams and Valid hold
--   the lemmas.
-- Placement: webhook/placement_strategy.go, ApplyPlacementStrategy with all that it calls. A
--   function that changes the pod returns the changed pod. Placement/Best and Choice are about
--   the rule chosen, Totals about the number of pods, Applied and Selector about the pod that
--   comes out.
-- Counting: the loops of getCurrentPodCounts (webhook/state_manager.go) and getBasicPodCounts
--   (webhook/mutate_pod.go), which are the same, and isNodeSelectorSubset. Counting/Subset is
--   about the selectors that match, Within about the totals.
-- State, State/Load, State/Increment: webhook/state_manager.go. State/Totals holds the
--   invariant of the stored counts; State/Stored is about what is written, State/ReadBack about
--   what is read back and what is lost, State/Kept about what the clean-up leaves, State/Silent
--   and State/Waits about how long a call sleeps and where it lists pods.
-- Parents: findParentDeployment (webhook/mutate_pod.go), mapPodToDeployment
--   (controllers/rebalance_controller.go). Parents/Owned is about a pod of a ReplicaSet.
-- Mutator, Mutator/Handle: webhook/mutate_pod.go. `handle` is composed of one function for each
--   early return. Mutator/Merged says what a rule makes of a pod, Mutator/Placed is about the
--   answers under a given strategy, Mutator/Answers about all of them, Mutator/Uncounted about the
--   pods that are not counted.
-- Scheduler: controllers/scheduler_controller.go. Events: what its event filter and the
--   rebalance controller's read.
-- Rebalance, Rebalance/Select, Rebalance/Reconcile: controllers/rebalance_controller.go.
--   Rebalance/Bounds is about the pods selected, Deletes and Deletes/Requests about the pods
--   deleted, Written and Distribution about the expected counts, Requeues about when a request
--   comes back, Events about the event filters.
-- Api: api/v1/podplacementpolicy_types.go, the types. Api/Memory is about copies in memory,
--   Api/Stored has the types with the addresses in them, Api/DeepCopy the methods DeepCopyInto,
--   DeepCopy and DeepCopyObject, Api/Addresses the addresses in every field of a policy,
--   Api/Apart what a copy shares.
-- Policy: controllers/podplacementpolicy_controller.go, a module for each function: Convert
--   (convertStrategyToAnnotation), Apply (applyPolicyToDeployment and what it calls), Status
--   (updatePolicyStatus), Cleanup (handlePolicyDeletion), Requests (mapDeploymentToPolicy) and
--   Reconcile. Policy/RoundTrip and the modules below it lead an annotation from the controller
--   through the parser, RoundTrip/Whole and RoundTrip/Lost tell what it carries and what not;
--   Apply/Priority, Apply/Way and Apply/Highest are about the policy that a deployment has,
--   Apply/Held and Apply/Only about what the server holds then, Cleanup/Undo about what a
--   deletion leaves, Disabled about a disabled policy, Asked about the policies that an event
--   asks for, Requeues about when a request comes back. Policy/Matched is about the deployments
--   reported, and Policy/Enforced composes the controller, the parser and the webhook.
-- Setup: SetupWithManager of the three controllers, and SetupWebhookWithManager, InjectDecoder,
--   Default and the Validate methods of webhook/mutate_pod.go.
-- Main, Main/DebugClient, Main/Run: cmd/main.go, the namespaces to watch, debugClient, and the
--   function main. Main/Namespaces is about the names watched, Main/Unlogged about the
--   clients whose requests are logged.
-- Version: pkg/version/version.go.
-- Kube, Client, Controller: the objects and the requests of Kubernetes that the code uses
--   (Client/Watched: with a memory of sleeps, or of lists and deletions), and what a controller
--   answers.
-- GoText, GoMap, Float, Prelude: strings, maps, floats and `int` of Go.
-- Tests: runs on concrete values.
--
-- How the code is modelled. An `int` is an integer of 64 bits, whose sums and differences wrap
-- around. A text is a list of code points. A map is an association list that holds each key
-- once, and a loop over a map visits it in an order that is a parameter, another one at each
-- loop of a run; where a proof needs more, it asks that every entry is visited once. float64 is
-- a type with operations; the two laws asked of it are those of IEEE 754 on integers up to 2^53.
-- The API server, the clock, the manager and the builder of controller-runtime, encoding/json,
-- time.Format, the types of metav1 and the way controller-runtime combines event filters are
-- parameters; where a theorem needs a law of one of them, it is a hypothesis: that the server
-- keeps the ConfigMap or the deployment that it accepted, that a list asked for by a selector
-- holds what the selector matches, that a state that was marshalled is unmarshalled as it was,
-- that copies by metav1 are deep, and that WithEventFilter holds for every watch. A pointer in
-- memory is its address with what is stored there. Calls of the API server read and change a
-- world of any type, so what is proved holds whatever other clients do between two calls.
--
-- The loops are structural recursion on lists; IncrementPodCount recurses on the rounds that are
-- left, three at the start as in the code, and the result when none is left is the error that
-- the code returns.
--
-- Not modelled: logging, but for debugClient; what the package flag does, so the flags are a
-- record with their defaults; the registration of types in init of cmd/main.go and in
-- api/v1/groupversion_info.go, which only call third-party code; and generateReconcileID, whose
-- result is only logged. The branch of Handle for an error of findParentDeployment is left out,
-- since that function returns none. A deployment is taken to have a selector, which Kubernetes
-- requires.
mod Prelude
pub mod GoText
pub mod GoMap
pub mod Strategy
pub mod Api
pub mod Controller
pub mod Policy
pub mod Kube
pub mod Float
pub mod Placement
pub mod Client
pub mod Counting
pub mod State
pub mod Parents
pub mod Mutator
pub mod Rebalance
pub mod Events
pub mod Scheduler
pub mod Setup
pub mod Main
pub mod Version
mod Tests
