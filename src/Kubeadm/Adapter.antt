-- ===== src/Kubeadm/Adapter.antt =====
-- pkg/provider/kubeadm/adapter.go.
pub mod Apply
pub mod Jobs
pub mod Polls
pub mod Gate
use kubernetes_upgrade_opera.Base.{
  String, str_eq, Bool, true, false, not, ◌&&◌, Option, none, some, List, [], ◌∷◌, if◌then◌else◌,
}
use kubernetes_upgrade_opera.Result.{
  ApiError, not_found, already_exists, Error, api, wrapped, no_rest_config, job_not_found,
  job_failed, Result, ok, err,
}
use kubernetes_upgrade_opera.Core.{JobCondition, Node}
use kubernetes_upgrade_opera.Types.{
  Role, control_plane, worker, kubeadm, in_place, NodeProgress, NodeGroupUpgrade,
}
use kubernetes_upgrade_opera.NodeState.{status_is_true}
use kubernetes_upgrade_opera.Health.{EtcdQuorumStatus, ControlPlaneHealth}
use kubernetes_upgrade_opera.Health.Listing.{
  list_control_plane_nodes, check_control_plane_health, check_etcd_quorum_via_api_servers,
  get_running_etcd_version,
}
use kubernetes_upgrade_opera.Checksums.{KubeSet, lookup_kube}
use kubernetes_upgrade_opera.Drain.{join}
use kubernetes_upgrade_opera.Adapter.{NodePhase, NodeResult, Adapter, same_strategy}
use kubernetes_upgrade_opera.Cluster.{
  Answer, found, refused, Run, pure, raise, lift, in_context, ◌>>=◌, ◌>>◌,
}
use kubernetes_upgrade_opera.Kubeadm.Calls.{Settings, ExecutorEnv, read_job, write_job}
use kubernetes_upgrade_opera.Kubeadm.Executor.{PinnedChecksums, job_name_for, build_upgrade_job}
use kubernetes_upgrade_opera.Kubeadm.EtcdQuorum.{or_unpinned, check_etcd_quorum_via_etcdctl}

abbrev pub is_control_plane : NodeGroupUpgrade → Bool
is_control_plane ng = elim ng.spec.role [ control_plane ↦ true | worker ↦ false ]

-- an entry for the target version that has a completion time
abbrev completed_for : String → NodeProgress → Bool
completed_for target np =
    str_eq np.to_version target && elim np.completed_at [ none ↦ false | some t ↦ true ]

unfoldable pub is_first_control_plane_upgrade : List NodeProgress → String → Bool
is_first_control_plane_upgrade [] target = true
is_first_control_plane_upgrade (np ∷ progress) target =
    let rest = is_first_control_plane_upgrade progress target in
    if completed_for target np then false else rest

abbrev sums_of : Result KubeSet → Result PinnedChecksums
sums_of (ok set) = ok (record { kubeadm = set.kubeadm; kubelet_deb = set.kubelet_deb })
sums_of (err e) = err e

abbrev no_sums : PinnedChecksums
no_sums = record { kubeadm = ""; kubelet_deb = "" }

unfoldable pub job_result : String → List JobCondition → NodeResult
job_result node_name [] = record {
  node_name = node_name;
  phase = NodePhase.in_progress;
  error = none;
}
job_result node_name (c ∷ conditions) =
    let rest = job_result node_name conditions in
    if status_is_true c.status
    then if str_eq c.kind "Complete"
      then record { node_name = node_name; phase = NodePhase.upgraded; error = none }
      else if str_eq c.kind "Failed"
      then record {
        node_name = node_name;
        phase = NodePhase.failed;
        error = some (job_failed node_name);
      }
      else rest
    else rest

-- the error that creating a Job adds to `errs`
unfoldable pub create_error : Option ApiError → Option Error
create_error none = none
create_error (some already_exists) = none
create_error (some e) = some (wrapped "creating upgrade job for node" (api e))

abbrev raise_joined : Option Error → Run (Unit {0})
raise_joined none = pure tt
raise_joined (some e) = raise e

-- a check that ends Precheck where it is not healthy
abbrev unless_healthy : Bool → String → Run (Bool × String) → Run (Bool × String)
unless_healthy healthy reason next = if not healthy then pure (false, reason) else next

module _ (env : ExecutorEnv) where
  unfoldable pub pinned_sums_for : String → Node → Result PinnedChecksums
  unfolding lookup_kube
  pinned_sums_for target_version node =
      or_unpinned env.settings.allow_unpinned_checksums no_sums
        (sums_of (lookup_kube env.checksums target_version node.architecture))

  -- behind the etcdctl check
  abbrev by_etcdctl : Option EtcdQuorumStatus → Run (Bool × String)
  by_etcdctl none = pure (false, "waiting for etcdctl health check to complete")
  by_etcdctl (some status) = unless_healthy status.healthy status.reason (pure (true, ""))

  unfoldable pub precheck_etcd : Run (Bool × String)
  unfolding list_control_plane_nodes check_etcd_quorum_via_api_servers get_running_etcd_version
      check_etcd_quorum_via_etcdctl
  precheck_etcd = do
    nodes ← list_control_plane_nodes env
    served ← check_etcd_quorum_via_api_servers env nodes
    unless_healthy served.healthy served.reason (do
      version ←
          in_context "determining running etcd version for etcdctl health check"
            (get_running_etcd_version env)
      checked ← check_etcd_quorum_via_etcdctl env nodes version
      by_etcdctl checked)

  unfoldable pub precheck : NodeGroupUpgrade → Run (Bool × String)
  unfolding check_control_plane_health precheck_etcd
  precheck ng = do
    health ← check_control_plane_health env
    unless_healthy health.healthy health.reason (
        if is_control_plane ng
        then if env.has_rest_config then precheck_etcd else raise no_rest_config
        else pure (true, ""))

  -- one node of the loop of BeginBatch, by the checksums for it
  unfoldable pub begin_node : String → Node → Bool → Result PinnedChecksums → Run (Option Error)
  unfolding build_upgrade_job create_error
  begin_node target_version node use_apply (err e) = pure (some e)
  begin_node target_version node use_apply (ok sums) = do
    reply ← write_job env (build_upgrade_job env node.name target_version use_apply sums)
    pure (create_error reply)

  -- the loop; only its first node can claim "apply"
  unfoldable pub begin_nodes : String → Bool → List Node → Run (Option Error)
  unfolding begin_node pinned_sums_for
  begin_nodes target_version apply_available [] = pure none
  begin_nodes target_version apply_available (node ∷ batch) = do
    failure ← begin_node target_version node apply_available (pinned_sums_for target_version node)
    rest ← begin_nodes target_version false batch
    pure (join failure rest)

  unfoldable pub begin_batch : NodeGroupUpgrade → List Node → Run (Unit {0})
  unfolding begin_nodes is_first_control_plane_upgrade
  begin_batch ng batch = do
    errs ←
        begin_nodes ng.spec.target_version
          (is_control_plane ng
            && is_first_control_plane_upgrade ng.status.node_progress ng.spec.target_version)
          batch
    raise_joined errs

  -- one node of PollBatch, by the Job that is there
  unfoldable pub poll_node : Node → Answer (List JobCondition) → Run NodeResult
  unfolding job_result
  poll_node node (refused not_found) = pure (record {
    node_name = node.name;
    phase = NodePhase.failed;
    error = some (job_not_found node.name);
  })
  poll_node node (refused e) = raise (wrapped "getting upgrade job for node" (api e))
  poll_node node (found conditions) = pure (job_result node.name conditions)

  unfoldable pub poll_nodes : String → List Node → Run (List NodeResult)
  unfolding poll_node job_name_for
  poll_nodes target_version [] = pure []
  poll_nodes target_version (node ∷ batch) = do
    job ← read_job env (job_name_for env node.name target_version)
    one ← poll_node node job
    rest ← poll_nodes target_version batch
    pure (one ∷ rest)

  unfoldable pub verify : Run (Bool × String)
  unfolding check_control_plane_health
  verify = do health ← check_control_plane_health env; pure (health.healthy, health.reason)

  unfoldable pub kubeadm_adapter : Adapter
  unfolding precheck begin_batch poll_nodes verify
  kubeadm_adapter = record {
    kind = kubeadm;
    supports_strategy = λ s. same_strategy s in_place;
    precheck = precheck;
    begin_batch = begin_batch;
    poll_batch = λ ng batch. poll_nodes ng.spec.target_version batch;
    verify = λ ng. verify;
  }
