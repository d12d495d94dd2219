-- ===== src/Lib.antt =====
-- A model of the Kubernetes upgrade operator: the planning code, the drain and cordon of a node, the
-- provider adapters, the controllers of a node group and of a cluster upgrade, and the webhook.
--
-- The program upgrades a cluster in hops of one minor version. The controller of a KubernetesUpgrade
-- holds a lease, so that one upgrade is active at a time, plans the hops, discovers the node groups of
-- the cluster, keeps one NodeGroupUpgrade per group, and releases the control plane's before the
-- workers'. The controller of a NodeGroupUpgrade takes the nodes of the group in batches through
-- Draining, Upgrading and Verifying, and has an adapter do the upgrade itself. Each module names the Go
-- file that it is about:
--
--   Version     pkg/k8sutil/version.go: parse, compare, minor difference, skew. The semver library is
--               the parameter `Semver`, with its documented behaviour as `SemverLaws`
--   StepPlan    pkg/upgrade/stepplan.go: ComputeStepPlan and NextGroupTarget
--   Batches     pkg/upgrade/batches.go: ResolveConcurrency and NextBatch
--   Discovery   pkg/upgrade/discovery.go and wellknown.go: the groups and their oldest versions
--   Children    pkg/upgrade/reconcile_children.go: strategies, and which children may be deleted
--   Core, Types the parts of the Kubernetes objects that are read or written, and api/v1alpha1
--   Cluster     calls to the API server: a handler is a `Run`, which returns a result or an error and
--               puts its calls on a history; `Env` answers each call from the history so far
--   NodeState   pkg/k8sutil/cordon.go and wait.go
--   Health      pkg/k8sutil/health.go: the majority checks, the listing of the control plane's nodes,
--               and the version that etcd runs
--   Drain       pkg/k8sutil/drain.go: one pass of evictions
--   Checksums   pkg/checksums/checksums.go: the lookups, in a table that is a parameter
--   Adapter     pkg/provider: the interface, the registry, the adapters without an implementation, and
--               the generic adapter, whose in-place half is a parameter that `Kubeadm` fills
--   Kubeadm     pkg/provider/kubeadm: the Jobs that upgrade a node, the adapter over them, and the
--               health check of etcd by Jobs; `ExecutorEnv` answers its calls
--   Providers   pkg/provider/registry.go: DefaultRegistry, as the adapters' packages fill it
--   NodeGroup   internal/controller/nodegroupupgrade_*.go: Reconcile and its phases; `Stored` has the
--               statuses that a group can come to have, and Counts the count of its nodes by phase
--               (metrics_helpers.go)
--   Upgrade     internal/controller/kubernetesupgrade_*.go: Reconcile and its phases; `UpgradeEnv`
--               answers its calls. Lease has the mutual exclusion, Course an abstract machine of the
--               phases with its guards, Lawful the calls that a reconcile may make and the proof that
--               each phase makes no other, Promises what follows, and Stored the statuses that an
--               upgrade can come to have
--   Webhook     internal/webhook/v1alpha1/kubernetesupgrade_webhook.go
--   Examples    concrete inputs, and whole upgrades run on a sample cluster
--
-- Numbers: an int32 or int64 is a signed number, wrapped (`int32`, `sub64`) where the program computes
-- with it; an index or a length is a natural number. A Go string is a native text; provider IDs, group
-- names and version strings are taken to be ASCII. A Go map is an association list.
--
-- Bounds and fuel: every loop is by recursion on the list that it ranges over, so no fuel is needed,
-- except that the plan of hops recurses on the number of minor versions between the two versions, and
-- that `%d` prints with one unit of fuel more than the number, which is more than its digits.
--
-- Nothing is assumed of how the answers of an environment hang together, so that a theorem about every
-- environment covers other clients, conflicts and failures between any two calls. Only the contest for
-- the lease (Upgrade.Lease.Exclusion) assumes how the API server treats versions.
--
-- Not modelled: the reads of the object that a reconcile is for, the Prometheus series and the wrapper
-- that times an adapter, log lines, owner references, the start-up in cmd/main.go, the parsing of the
-- embedded checksums and generated code, which do not change the state of the program. The texts of
-- messages keep what they name and not their wording.
pub mod Base
pub mod Result
pub mod Version
pub mod StepPlan
pub mod Batches
pub mod Core
pub mod Types
pub mod Cluster
pub mod NodeState
pub mod Health
pub mod Drain
pub mod Adapter
pub mod NodeGroup
pub mod Providers
pub mod Discovery
pub mod Children
pub mod Examples
pub mod Upgrade
pub mod Webhook
pub mod Checksums
pub mod Kubeadm
