-- ===== src/Kubeadm/EtcdQuorum.antt =====
-- pkg/provider/kubeadm/etcdquorum.go: a health check of etcd by one Job on each control-plane node.
pub mod Laws
use Prim.Native.String.{◌++◌}
use kubernetes_upgrade_opera.Base.{
  ℕ, zero, suc, ◌+◌, ℤ, pos, leb, String, str_eq, Bool, true, false, Option, none, some, List, [],
  ◌∷◌, length, if◌then◌else◌,
}
use kubernetes_upgrade_opera.Result.{
  ApiError, not_found, already_exists, Error, api, wrapped, Result, ok, err, context,
}
use kubernetes_upgrade_opera.Core.{
  ConditionStatus, is_true, is_false, is_unknown, JobCondition, Node, Job,
}
use kubernetes_upgrade_opera.NodeState.{status_is_true}
use kubernetes_upgrade_opera.Health.{EtcdQuorumStatus, quorum, shortfall}
use kubernetes_upgrade_opera.Checksums.{EtcdSet, lookup_etcd}
use kubernetes_upgrade_opera.Cluster.{
  Answer, found, refused, Run, pure, raise, lift, in_context, ◌>>=◌, ◌>>◌,
}
use kubernetes_upgrade_opera.Kubeadm.Calls.{Settings, ExecutorEnv, read_job, write_job, remove_job}
use kubernetes_upgrade_opera.Kubeadm.Executor.{
  bool_env, executor_service_account, node_name_label, confined,
}

-- jobState
pub data JobState : Type 0 where
  running complete failed : JobState

-- the first condition that is true and says how the Job ended
unfoldable pub job_condition_state : List JobCondition → JobState
job_condition_state [] = running
job_condition_state (c ∷ conditions) =
    let rest = job_condition_state conditions in
    if status_is_true c.status
    then if str_eq c.kind "Complete"
      then complete
      else if str_eq c.kind "Failed"
      then failed
      else rest
    else rest

-- what a checksum that is missing comes to
abbrev pub or_unpinned : {A : Type 0} → Bool → A → Result A → Result A
or_unpinned allow unpinned (ok a) = ok a
or_unpinned allow unpinned (err e) =
    if allow then ok unpinned else err (wrapped "refusing to run unpinned on node" e)

abbrev tarball_of : Result EtcdSet → Result String
tarball_of (ok set) = ok set.etcdctl_tarball
tarball_of (err e) = err e

-- The healthy and the pending members that the loop has counted.
pub record Counted : Type 0 where
  pub healthy : ℕ
  pub pending : ℕ

abbrev one_healthy : Counted → Counted
one_healthy n = record n { healthy = suc n.healthy }

abbrev one_pending : Counted → Counted
one_pending n = record n { pending = suc n.pending }

-- whether the error of creating a Job ends the check
unfoldable pub creation : Option ApiError → Result (Unit {0})
creation none = ok tt
creation (some already_exists) = ok tt
creation (some e) = err (wrapped "creating etcdctl health check job for node" (api e))

module _ (env : ExecutorEnv) where
  unfoldable pub etcdctl_check_job_name : String → String
  etcdctl_check_job_name node_name = "kuo-etcdctl-" ++ env.fnv_hex ("etcdctl-health@" ++ node_name)

  unfoldable pub build_etcdctl_health_check_job : String → String → String → Job
  unfolding etcdctl_check_job_name bool_env
  build_etcdctl_health_check_job node_name etcd_version etcdctl_sha = record {
    name = etcdctl_check_job_name node_name;
    namespace = env.settings.executor_namespace;
    labels = (node_name_label, node_name) ∷ [];
    backoff_limit = pos 1;
    ttl_seconds_after_finished = pos 30;
    pod_labels = (node_name_label, node_name) ∷ [];
    pod_annotations =
        ("container.apparmor.security.beta.kubernetes.io/etcdctl-check", "unconfined") ∷ [];
    service_account_name = executor_service_account;
    automount_token = false;
    restart_policy = "Never";
    node_name = node_name;
    host_pid = true;
    active_deadline_seconds = pos 60;
    tolerations = "Exists" ∷ [];
    containers =
        confined "etcdctl-check" env.settings.executor_image
          ("/usr/local/bin/etcd-healthcheck.sh" ∷ [])
          (("ETCD_VERSION", etcd_version)
            ∷ ("ETCDCTL_SHA256", etcdctl_sha)
            ∷ ("ALLOW_UNPINNED_CHECKSUMS", bool_env env.settings.allow_unpinned_checksums)
            ∷ [])
        ∷ [];
    supplemental_groups = [];
  }

  unfoldable pub pinned_etcdctl_sha : String → Node → Result String
  unfolding lookup_etcd
  pinned_etcdctl_sha etcd_version node =
      or_unpinned env.settings.allow_unpinned_checksums ""
        (tarball_of (lookup_etcd env.checksums etcd_version node.architecture))

  -- a Job that has come to its end is deleted, whatever the deletion answers
  abbrev observed : String → JobState → Counted → Run Counted
  observed name complete n = remove_job env name >>= λ reply. pure (one_healthy n)
  observed name failed n = remove_job env name >>= λ reply. pure n
  observed name running n = pure (one_pending n)

  -- the body of the loop, by the Job that is there
  unfoldable pub check_member : String → Node → Counted → Answer (List JobCondition) → Run Counted
  unfolding pinned_etcdctl_sha build_etcdctl_health_check_job creation job_condition_state
      etcdctl_check_job_name
  check_member etcd_version node n (refused not_found) = do
    sha ← lift (pinned_etcdctl_sha etcd_version node)
    reply ← write_job env (build_etcdctl_health_check_job node.name etcd_version sha)
    _ ← lift (creation reply)
    pure (one_pending n)
  check_member etcd_version node n (refused e) =
      raise (wrapped "getting etcdctl health check job for node" (api e))
  check_member etcd_version node n (found conditions) =
      observed (etcdctl_check_job_name node.name) (job_condition_state conditions) n

  unfoldable pub check_members : String → List Node → Counted → Run Counted
  unfolding check_member etcdctl_check_job_name
  check_members etcd_version [] n = pure n
  check_members etcd_version (node ∷ nodes) n = do
    job ← read_job env (etcdctl_check_job_name node.name)
    next ← check_member etcd_version node n job
    check_members etcd_version nodes next

  -- behind the loop: `none` where some member is pending
  unfoldable pub verdict : ℕ → Counted → Option EtcdQuorumStatus
  unfolding shortfall
  verdict total n = elim n.pending [
    | suc p ↦ none
    | zero ↦ some (record {
      healthy = leb (quorum total) n.healthy;
      total_members = total;
      healthy_members = n.healthy;
      reason =
          if leb (quorum total) n.healthy
          then ""
          else shortfall n.healthy total
              " control-plane etcd members report healthy via etcdctl, need at least " "";
    })
  ]

  -- `none` is `done == false`
  unfoldable pub check_etcd_quorum_via_etcdctl : List Node → String → Run (Option EtcdQuorumStatus)
  unfolding check_members verdict
  check_etcd_quorum_via_etcdctl [] etcd_version = pure (
      some (record {
        healthy = true;
        total_members = 0;
        healthy_members = 0;
        reason = "no control-plane nodes to check";
      }))
  check_etcd_quorum_via_etcdctl (node ∷ nodes) etcd_version = do
    n ← check_members etcd_version (node ∷ nodes) (record { healthy = 0; pending = 0 })
    pure (verdict (length (node ∷ nodes)) n)
