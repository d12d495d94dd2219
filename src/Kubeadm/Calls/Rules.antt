-- ===== src/Kubeadm/Calls/Rules.antt =====
-- Rules for what the calls of the kubeadm adapter satisfy, and for what they return.
use kubernetes_upgrade_opera.Base.{String, ◌≡◌, refl, List}
use kubernetes_upgrade_opera.Core.{Job}
use kubernetes_upgrade_opera.Cluster.{
  Call, list_labelled, list_etcd_pods, ask_healthz, get_job, create_job, delete_job, executor_call,
  History, found,
}
use kubernetes_upgrade_opera.Cluster.Rules.{Ensures, Any, anything, answered}
use kubernetes_upgrade_opera.Kubeadm.Calls.{
  ExecutorEnv, read_labelled, read_etcd_pods, read_healthz, read_job, write_job, remove_job,
}

module _ {C : Call → Type 0} (env : ExecutorEnv) where
  pub Ensures-read_labelled :
      (key : String)
      → C (executor_call (list_labelled key))
      → Ensures C
          (read_labelled env key)
          (λ nodes. (h : History) × (env.labelled h key ≡ found nodes))
  unfolding read_labelled
  Ensures-read_labelled key k = record {
    at = λ h all. ((k, all), answered (λ h. env.labelled h key) h);
  }

  pub Ensures-read_etcd_pods : C (executor_call list_etcd_pods) → Ensures C (read_etcd_pods env) Any
  unfolding read_etcd_pods
  Ensures-read_etcd_pods k = record { at = λ h all. ((k, all), anything _) }

  pub Ensures-read_healthz :
      (urls : List String)
      → C (executor_call (ask_healthz urls))
      → Ensures C (read_healthz env urls) (λ f. (h : History) × (env.answers_ok h ≡ f))
  unfolding read_healthz
  Ensures-read_healthz urls k = record { at = λ h all. ((k, all), (h, refl)) }

  pub Ensures-read_job :
      (name : String)
      → C (executor_call (get_job name))
      → Ensures C (read_job env name) (λ a. (h : History) × (env.job_at h name ≡ a))
  unfolding read_job
  Ensures-read_job name k = record { at = λ h all. ((k, all), (h, refl)) }

  pub Ensures-write_job :
      (job : Job) → C (executor_call (create_job job)) → Ensures C (write_job env job) Any
  unfolding write_job
  Ensures-write_job job k = record { at = λ h all. ((k, all), tt) }

  pub Ensures-remove_job :
      (name : String) → C (executor_call (delete_job name)) → Ensures C (remove_job env name) Any
  unfolding remove_job
  Ensures-remove_job name k = record { at = λ h all. ((k, all), tt) }
