-- ===== src/Kubeadm/Calls.antt =====
-- The calls of the kubeadm adapter, what answers them, and what the operator is set up with.
pub mod Rules
use kubernetes_upgrade_opera.Base.{ℤ, String, Bool, Option, none, some, List, ◌∷◌}
use kubernetes_upgrade_opera.Result.{ApiError, Error, Result, ok, err}
use kubernetes_upgrade_opera.Core.{Node, EtcdPod, JobCondition, Job}
use kubernetes_upgrade_opera.Checksums.{Table}
use kubernetes_upgrade_opera.Cluster.{
  Call, ExecutorCall, list_labelled, list_etcd_pods, ask_healthz, get_job, create_job, delete_job,
  executor_call, History, Answer, Run, of_answer,
}

-- The variables of pkg/provider/kubeadm that the start-up sets.
pub record Settings : Type 0 where
  pub executor_image : String
  pub executor_namespace : String
  pub containerd_socket_gid : Option ℤ
  pub allow_unpinned_checksums : Bool

pub record ExecutorEnv : Type 0 where
  pub settings : Settings
  pub checksums : Table
  -- `%x` of the 32-bit FNV-1a hash of hash/fnv
  pub fnv_hex : String → String
  -- whether the adapter has a *rest.Config, and rest.TransportFor makes a transport of it
  pub has_rest_config : Bool
  pub transport : Option Error
  pub labelled : History → String → Answer (List Node)
  pub etcd_pods : History → Answer (List EtcdPod)
  -- whether a GET of the URL answers 200 OK
  pub answers_ok : History → String → Bool
  pub job_at : History → String → Answer (List JobCondition)
  pub create_job_reply : History → Job → Option ApiError
  pub delete_job_reply : History → String → Option ApiError

module _ (env : ExecutorEnv) where
  -- c.List(ctx, &nodes, client.MatchingLabels{key: ""})
  unfoldable pub read_labelled : String → Run (List Node)
  read_labelled key h = (of_answer (env.labelled h key), executor_call (list_labelled key) ∷ h)

  unfoldable pub read_etcd_pods : Run (List EtcdPod)
  read_etcd_pods h = (of_answer (env.etcd_pods h), executor_call list_etcd_pods ∷ h)

  unfoldable pub read_healthz : List String → Run (String → Bool)
  read_healthz urls h = (ok (env.answers_ok h), executor_call (ask_healthz urls) ∷ h)

  unfoldable pub read_job : String → Run (Answer (List JobCondition))
  read_job name h = (ok (env.job_at h name), executor_call (get_job name) ∷ h)

  unfoldable pub write_job : Job → Run (Option ApiError)
  write_job job h = (ok (env.create_job_reply h job), executor_call (create_job job) ∷ h)

  unfoldable pub remove_job : String → Run (Option ApiError)
  remove_job name h = (ok (env.delete_job_reply h name), executor_call (delete_job name) ∷ h)
