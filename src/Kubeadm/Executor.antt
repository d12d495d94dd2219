-- ===== src/Kubeadm/Executor.antt =====
-- pkg/provider/kubeadm/executor.go: the Jobs that upgrade a node.
use Prim.Native.String.{◌++◌}
use kubernetes_upgrade_opera.Base.{
  ℤ, pos, String, Bool, true, false, Option, none, some, List, [], ◌∷◌,
}
use kubernetes_upgrade_opera.Core.{Container, Job}
use kubernetes_upgrade_opera.Upgrade.Child.{first_characters}
use kubernetes_upgrade_opera.Kubeadm.Calls.{ExecutorEnv}

unfoldable pub bool_env : Bool → String
bool_env true = "true"
bool_env false = "false"

abbrev pub executor_service_account : String
executor_service_account = "kubernetes-upgrade-operator-executor"

abbrev pub node_name_label : String
node_name_label = "upgrade.k8s-upgrade-operator/node"

abbrev target_version_label : String
target_version_label = "upgrade.k8s-upgrade-operator/target-version"

-- version strings are ASCII text
unfoldable pub sanitize_label_value : String → String
unfolding first_characters
sanitize_label_value v = first_characters 63 v

pub record PinnedChecksums : Type 0 where
  pub kubeadm : String
  pub kubelet_deb : String

unfoldable pub upgrade_mode : Bool → String
upgrade_mode true = "apply"
upgrade_mode false = "node"

-- the SecurityContext of a container
abbrev pub confined : String → String → List String → List (String × String) → Container
confined name image command variables = record {
  name = name;
  image = image;
  command = command;
  variables = variables;
  added_capabilities = "SYS_ADMIN" ∷ "SYS_CHROOT" ∷ "SYS_PTRACE" ∷ [];
  dropped_capabilities = "ALL" ∷ [];
  allow_privilege_escalation = false;
  read_only_root_filesystem = true;
}

abbrev supplemental_groups_of : Option ℤ → List ℤ
supplemental_groups_of none = []
supplemental_groups_of (some gid) = gid ∷ []

module _ (env : ExecutorEnv) where
  unfoldable pub job_name_for : String → String → String
  job_name_for node_name target_version =
      "kuo-upgrade-" ++ env.fnv_hex (node_name ++ ("@" ++ target_version))

  unfoldable pub build_upgrade_job : String → String → Bool → PinnedChecksums → Job
  unfolding job_name_for sanitize_label_value upgrade_mode bool_env
  build_upgrade_job node_name target_version use_apply sums = record {
    name = job_name_for node_name target_version;
    namespace = env.settings.executor_namespace;
    labels =
        (node_name_label, node_name)
        ∷ (target_version_label, sanitize_label_value target_version)
        ∷ [];
    backoff_limit = pos 2;
    ttl_seconds_after_finished = pos 600;
    pod_labels = (node_name_label, node_name) ∷ [];
    pod_annotations =
        ("container.apparmor.security.beta.kubernetes.io/kubeadm-upgrade", "unconfined") ∷ [];
    service_account_name = executor_service_account;
    automount_token = false;
    restart_policy = "Never";
    node_name = node_name;
    host_pid = true;
    active_deadline_seconds = pos 900;
    tolerations = "Exists" ∷ [];
    containers =
        confined "kubeadm-upgrade" env.settings.executor_image [] (
          ("TARGET_VERSION", target_version)
          ∷ ("UPGRADE_MODE", upgrade_mode use_apply)
          ∷ ("KUBEADM_SHA256", sums.kubeadm)
          ∷ ("KUBELET_DEB_SHA256", sums.kubelet_deb)
          ∷ ("ALLOW_UNPINNED_CHECKSUMS", bool_env env.settings.allow_unpinned_checksums)
          ∷ [])
        ∷ [];
    supplemental_groups = supplemental_groups_of env.settings.containerd_socket_gid;
  }
