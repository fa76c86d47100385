-- ===== src/Lib.antt =====
-- The AWS App Mesh controller for Kubernetes watches custom resources (meshes, virtual nodes, services,
-- routers, gateways and gateway routes) and makes AWS App Mesh hold what they describe. This library
-- models the resources, the admission webhooks that decide which of them enter the cluster, the
-- resolution of references between them, and the managers that make App Mesh follow them.
--
-- Parts and files:
-- - Base: shared helpers. Dict stands for Go maps, Exec for methods that call clients and may fail
--   with the effects of the earlier calls kept, Sets for sets.String of k8s.io/apimachinery.
-- - Api: the structs of apis/appmesh/v1beta2/*_types.go and types.go, one record each, with their
--   fields in snake case. A pointer is an Option, and so is a slice whose nil the program tells from
--   an empty one. metav1.LabelSelector is the parameter `Selector`.
-- - References: pkg/references/object_key.go and conversions.go. ObjectKeyForVirtualNodeReference is
--   object_key_for_virtual_node_reference, and so on.
-- - Conditions: conditions.go and IsMeshActive of pkg/mesh; the other packages hold the same functions for
--   their condition types.
-- - Finalizers: pkg/k8s/finalizers.go, one attempt of each method; RetryOnConflict of client-go repeats it.
-- - Membership: pkg/mesh and pkg/virtualgateway, membership_designator.go and members_finalizer.go: which
--   mesh or gateway an object joins, and when a mesh or gateway may be deleted. The Kubernetes client is the
--   record Cluster and label selectors are LabelSelectors.
-- - Webhooks: webhooks/appmesh/*_validator.go, one module for each validator (those of meshes,
--   virtual services and backend groups stand in Webhooks/Mesh). ValidateCreate is validate_create,
--   ValidateUpdate is validate_update, and a returned error is a constructor of Webhooks.Checks.Error
--   in place of its text. A nil dereference is the result `panic`. In Webhooks/GatewayRoute the
--   predicates of Accepts say what the tests ask of a route, which is less than it should be: what comes
--   after the first range match is not looked at, for example.
-- - Webhooks/Mutate: webhooks/appmesh/*_mutator.go. MutateCreate of virtual nodes is create_virtual_node,
--   and so on; MutateUpdate changes meshes only (update_mesh).
-- - Routes: pkg/virtualrouter/routes_manager.go and references.go: matching, tainted routes, and in
--   Routes/Reconcile create, update, remove and cleanup against the App Mesh client, which is the
--   record RouteApi with its documented behaviour in RouteApiLaws. BuildSDKRouteSpec and
--   cmp.Equal(…, EquateEmpty()) are the parameters `build` and `equal`. Routes/Reconcile/Memory is a
--   small client that meets the laws, for tests.
--
-- - Runtime: pkg/runtime: the errors that ask for another try, and HandleReconcileError.
-- - References/Resolver: pkg/references/resolver.go. The Kubernetes client is the record Client.
-- - Managers: resource_manager.go of pkg/mesh (Meshes), virtualgateway (Gateways), virtualnode (Nodes),
--   virtualservice (Services), virtualrouter (Routers) and gatewayroute (GatewayRoutes): Reconcile is
--   reconcile and Cleanup is cleanup. What the six have in common stands in Managers (findSDK…,
--   updateSDK… and so on), Managers/Dependencies (find…Dependencies, validate…Dependencies, the
--   references.go of the packages) and Managers/Status (updateCRD…, where `now` is the clock). The App
--   Mesh client is the record ResourceApi with its documented behaviour in Managers/Laws, where
--   `Answers` relates a spec that is sent to what App Mesh may hold then. The
--   conversions of pkg/conversions are the parameters `convert`, and cmp.Equal is `equal`.
--   Managers/Memory is a small App Mesh and cluster that meet the laws, for tests.
--
-- - CloudMap: pkg/cloudmap/types.go and utils.go, and of instances_reconcile_task.go the plan
--   (matchDesiredInstancesAgainstExistingInstances) and, in CloudMap/Task, the loop Run: a step takes what the
--   next listing shows (turn) or what the channels deliver (receive), Reach holds the states that a task
--   comes to, and the goroutines are the list `in_flight`.
--
-- - CloudMap/Cache: pkg/cloudmap/instances_cache.go. ListInstances is list_instances and so on; the LRU cache
--   of k8s.io/apimachinery is the record LruExpireCache, and AWS with wait.PollUntil is CloudMapSdk.
--
-- - CloudMap/Prober: pkg/cloudmap/instances_health_prober.go and pkg/k8s/pod_utils.go. updateInstanceProbeEntry is
--   update_instance_probe_entry; probeLoop is receive_request and on_timer, one for each channel. The clock
--   and the Kubernetes client are the record ProberClient.
--
-- The validators and the managers use the resources of Api; the managers resolve references through
-- References, read and write the status conditions through Conditions, and the manager of a
-- virtual router calls the routes manager. A returned error is a Failure, which the controllers give to
-- HandleReconcileError. Loops run over finite lists, so that there is no fuel. Integers are only carried and
-- compared, except that the prober adds a duration to a time; times and durations are natural numbers.
--
-- Not modelled: conversions to the SDK (pkg/conversions),
-- the rest of Cloud Map (pkg/cloudmap: the manager of services, the reactor that hands requests to tasks, and
-- the health prober's Submit with its two queries of AWS), sidecar injection (pkg/inject), throttling and metrics (pkg/aws); logs,
-- error texts and contexts; the registration of controllers and webhooks, generated deep copies,
-- mocks and end-to-end tests.
pub mod Base
pub mod Api
pub mod References
pub mod Conditions
pub mod Finalizers
pub mod Membership
pub mod Webhooks
pub mod Routes
pub mod Runtime
pub mod CloudMap
pub mod Managers
