-- ===== src/Examples/Executor.antt =====
-- The kubeadm adapter and the checksums on concrete inputs.
use kubernetes_upgrade_opera.Base.{◌+◌, ◌≤◌, true, false, ◌&&◌, none, List, [], ◌∷◌, ◌≡◌, refl, ◌↔◌}
use kubernetes_upgrade_opera.Core.{Node, JobCondition, is_true, is_false}
use kubernetes_upgrade_opera.Types.{control_plane, NodeGroupUpgrade}
use kubernetes_upgrade_opera.Result.{ok}
use kubernetes_upgrade_opera.Cluster.{found}
use kubernetes_upgrade_opera.Cluster.Rules.{Any, Post, Ensures}
use kubernetes_upgrade_opera.Checksums.{KubeSet, Table, lookup_kube}
use kubernetes_upgrade_opera.Checksums.Laws.{Pinned, lookup_kube_iff}
use kubernetes_upgrade_opera.Kubeadm.Calls.{ExecutorEnv}
use kubernetes_upgrade_opera.Kubeadm.EtcdQuorum.{check_etcd_quorum_via_etcdctl}
use kubernetes_upgrade_opera.Kubeadm.EtcdQuorum.Laws.{
  Decided, check_etcd_quorum_via_etcdctl-Decided,
}
use kubernetes_upgrade_opera.Kubeadm.Adapter.{
  is_control_plane, is_first_control_plane_upgrade, precheck, begin_batch, poll_nodes,
}
use kubernetes_upgrade_opera.Kubeadm.Adapter.Apply.{applies, one_if, begin_batch-applies}
use kubernetes_upgrade_opera.Kubeadm.Adapter.Jobs.{PinnedJob, begin_batch-PinnedJob}
use kubernetes_upgrade_opera.Kubeadm.Adapter.Polls.{AllPolled, poll_nodes-AllPolled}
use kubernetes_upgrade_opera.Kubeadm.Adapter.Gate.{Passed, precheck-Passed}
use kubernetes_upgrade_opera.Examples.Samples.{sample_node, sample_group}

abbrev kube_set : KubeSet
kube_set = record { kubeadm = "11"; kubelet_deb = "22" }

abbrev table : Table
table = record {
  versions = ("v1.30.0", ("amd64", kube_set) ∷ []) ∷ [];
  etcd = ("v3.5.24", ("amd64", record { etcdctl_tarball = "33" }) ∷ []) ∷ [];
}

abbrev ended : List JobCondition
ended =
    record { kind = "Failed"; status = is_false; message = "" }
    ∷ record { kind = "Complete"; status = is_true; message = "" }
    ∷ []

-- A cluster in which every Job is Complete.
abbrev pub executor_env : ExecutorEnv
executor_env = record {
  settings = record {
    executor_image = "executor";
    executor_namespace = "executors";
    containerd_socket_gid = none;
    allow_unpinned_checksums = false;
  };
  checksums = table;
  fnv_hex = λ s. s;
  has_rest_config = true;
  transport = none;
  labelled = λ h key. found (sample_node "a" ∷ []);
  etcd_pods = λ h. found (record { name = "etcd-a"; images = "etcd:3.5.24-0" ∷ [] } ∷ []);
  answers_ok = λ h url. true;
  job_at = λ h name. found ended;
  create_job_reply = λ h job. none;
  delete_job_reply = λ h name. none;
}

abbrev masters : NodeGroupUpgrade
masters =
    let g = sample_group ("a" ∷ "b" ∷ []) false in
    record g { spec = record g.spec { role = control_plane } }

abbrev batch : List Node
batch = sample_node "a" ∷ sample_node "b" ∷ []

lookup_kube_iff_example :
    (lookup_kube table "v1.30.0" "amd64" ≡ ok kube_set) ↔ Pinned table "v1.30.0" "amd64" kube_set
lookup_kube_iff_example = lookup_kube_iff table "v1.30.0" "amd64" kube_set

begin_batch-applies_example :
    applies (begin_batch executor_env masters batch []).1
    ≤ applies []
      + one_if (
          is_control_plane masters
          && is_first_control_plane_upgrade masters.status.node_progress
              masters.spec.target_version)
begin_batch-applies_example = begin_batch-applies executor_env masters batch []

begin_batch-PinnedJob_example :
    Ensures (PinnedJob executor_env "v1.30.0" batch) (begin_batch executor_env masters batch) Any
begin_batch-PinnedJob_example = begin_batch-PinnedJob executor_env masters batch refl

poll_nodes-AllPolled_example :
    Post (AllPolled executor_env "v1.30.0" batch) (poll_nodes executor_env "v1.30.0" batch []).0
poll_nodes-AllPolled_example = poll_nodes-AllPolled executor_env "v1.30.0" batch []

precheck-Passed_example : Post (Passed executor_env masters) (precheck executor_env masters []).0
precheck-Passed_example = precheck-Passed executor_env masters []

check_etcd_quorum_via_etcdctl-Decided_example :
    Post
      (Decided executor_env batch)
      (check_etcd_quorum_via_etcdctl executor_env batch "v3.5.24" []).0
check_etcd_quorum_via_etcdctl-Decided_example =
    check_etcd_quorum_via_etcdctl-Decided executor_env batch "v3.5.24" []
