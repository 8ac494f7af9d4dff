-- ===== src/Lib.antt =====
-- Verification of the VPSie Kubernetes autoscaler.
--
-- The autoscaler keeps one VPSieNode object for each machine that it rents. The controller in
-- pkg/controller/vpsienode reconciles such an object: each pass reads it, runs the handler of its
-- phase, which calls the VPSie API through the client of pkg/vpsie/client, and writes it back. The
-- client guards the API with a circuit breaker. The controller of the node groups
-- in pkg/controller/nodegroup decides how many nodes there are, and pkg/scaler which ones may go.
-- Modelled are the breaker, the classification of the API errors, the whole life of a VPSieNode, from
-- its creation to the removal of its finalizer, the scale-down from the samples to the deletions,
-- the scale-up from what pods lack to the new object or group, the rebalancer, from the report of savings to
-- the replacement of the nodes, and the admission of the objects.
--
-- Prelude: numbers, lists, integers, texts, dictionaries, and an interface for floats.
-- Breaker: pkg/vpsie/client/circuitbreaker.go. The record `Breaker` is the struct, `before_call` and
--   `after_call` are beforeCall and afterCall with the clock as an argument, `call` is Call with the
--   result of the function as an argument, `transition_to` and `reset` are transitionTo and Reset.
--   Breaker.Interleaving lets calls overlap: each step holds the mutex for one of them.
-- Cluster: what is read of the Kubernetes nodes, with pkg/utils/node.go.
-- Lifecycle.Errors: pkg/vpsie/client/errors.go.
-- Lifecycle.Types: pkg/apis/autoscaler/v1alpha1/vpsienode_types.go, conditions.go and SetPhase.
-- Lifecycle.Env: the clock, and what the VPSie API and the Kubernetes API answer.
-- Lifecycle.Provisioner, Joiner, Terminator, Phases, Reconciler: the files of those names in
--   pkg/controller/vpsienode (Reconciler is controller.go). A handler takes the object and the
--   environment and returns the changed object, the result, the error and its API calls in order.
--   `reconcile` is Reconcile on the stored object: an accepted write changes it, a refused one does
--   not.
-- Lifecycle.Drainer, Discoverer: drainer.go and discoverer.go. The life cycle takes the outcome of a drain
--   as an answer, and the result of a discovery, whose type is that of Lifecycle.Env.
-- Lifecycle.Edges, Conditions, Labels, Failures: the phase diagram, the conditions as a table, the
--   labels of a joined node, and what fails a node.
-- Lifecycle.Creation: how often a machine is created. Lifecycle.Deletion: how it is removed.
--
-- Scaler.Scheduling: the predicates of pkg/scaler/safety.go on taints and affinity.
-- Scaler.Policy: pkg/scaler/policies.go. Scaler.Safety and Scaler.Removal: the checks of safety.go with
--   the sums of utilization.go; `Kube` is what the cluster answers. Scaler.Utilization: the samples of
--   a node. Scaler.Manager: CanScaleDown and ScaleDown of scaler.go; an `Attempt` is a candidate with
--   what it meets when its turn comes. Scaler.Drain: drain.go, with the budgets of scaler.go; the
--   stored node and the object that the caller holds are two values, since every update carries the
--   version of a copy.
-- Groups: pkg/controller/nodegroup/status.go and reconciler.go: the counts of a group, the choice of
--   nodes to delete, and reconcileIntelligentScaleDown, the client of Scaler.Manager, which deletes
--   the VpsieNode objects whose life Lifecycle models.
-- Groups.ScaleUp: reconcileScaleUp, reconcileSimpleScaleDown, and reconcile from the listing of the
--   objects on, where there is no scale-down manager, which a scale-up does not ask; `Answers` is
--   what the API server answers.
--   Groups.ScaleUp.Bounds lets passes alternate with the writes of the other controllers.
-- Events: pkg/events/scaleup.go, with what it takes from analyzer.go and watcher.go: it raises the
--   desired count that Groups works towards. The pods of a group and what they lack are arguments.
--   Events.Offers and Events.Creator: creator.go, the size and the group that are made for a pod, and
--   Events.Search the match of pods and groups and the search of HandleScaleUp, which creates one.
--   Whether the API server accepts a group is an argument, which Events.Creator.Admission connects
--   with Webhook.Groups.
--
-- Rebalancer: pkg/rebalancer, which replaces the nodes of a group by cheaper ones. Analyzer is
--   analyzer.go (Analyzer.Capacity its check of the pods' requests), Planner and Merging are planner.go,
--   Nodes, Executor and Execution are executor.go: the operations on a node, the batches, and the
--   execution of a plan with its rollback. `Nodes.Kube` is what the Kubernetes API answers, and the
--   writes that are asked for stand in a list in their order. The provisioning of a node is a
--   parameter: `provision_new_node` is the code's, which refuses every node.
--
-- Webhook: pkg/webhook. Groups, Nodes and Server are nodegroup_validator.go, vpsienode_validator.go, and
--   server.go with node_deletion_validator.go; Fields holds the checks that the validators share, and
--   Patterns their regular expressions. Webhook.Regex stands for the regexp package of Go: a pattern
--   is a term, and matching takes its derivatives. `Nodes.new_node_of` is buildVPSieNode with the
--   fields that the webhook reads.
--
-- Times are nanoseconds from an origin; identifiers are natural numbers, zero where there is none.
-- Counters of the breaker that can be negative are integers; machine widths are not reached. The
-- loop of DeleteVPS recurses on the attempts that are left, so that no fuel is needed. The loop that
-- cuts candidates into batches has as many rounds as there are candidates, which is enough unless the
-- size of a batch is zero; polls of the API are lists of its answers before the timeout. Floats are a
-- record of operations without laws, with rationals as the instance that the tests run.
--
-- Not modelled: the rest of the NodeGroup controller, the scores of the rebalancer, the costs, the
-- reload of the template for new groups, and all that is input and output only: HTTP, logs, metrics,
-- traces and events. The elapsed time in the messages of the two timeouts is left out.
pub mod Prelude
pub mod Breaker
pub mod Cluster
pub mod Lifecycle
pub mod Scaler
pub mod Events
pub mod Groups
pub mod Rebalancer
pub mod Webhook
