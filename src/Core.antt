-- ===== src/Core.antt =====
-- The parts of the Kubernetes objects of k8s.io/api and k8s.io/apimachinery that the program reads.
use kubernetes_upgrade_opera.Base.{
  ℤ, String, Bool, Option, none, some, List, [], ◌∷◌, if◌then◌else◌, str_eq,
}

-- metav1.Time: the nanoseconds that the clock showed
abbrev pub Time : Type 0
Time = ℤ

-- map[string]string, without repeated keys
abbrev pub Labels : Type 0
Labels = List (String × String)

-- v, ok := m[k]
unfoldable pub lookup : Labels → String → Option String
lookup [] k = none
lookup ((j, v) ∷ m) k = if str_eq j k then some v else lookup m k

-- m[k], which is "" at a missing key
unfoldable pub label_or_empty : Labels → String → String
unfolding lookup
label_or_empty m k = elim (lookup m k) [ none ↦ "" | some v ↦ v ]

-- corev1.ConditionStatus
pub data ConditionStatus : Type 0 where
  is_true is_false is_unknown : ConditionStatus

-- corev1.NodeCondition
pub record NodeCondition : Type 0 where
  pub kind : String
  pub status : ConditionStatus
  pub reason : String
  pub message : String

-- corev1.NodeAddress
pub record NodeAddress : Type 0 where
  pub kind : String
  pub address : String

-- corev1.Node
pub record Node : Type 0 where
  pub name : String
  pub labels : Labels
  pub annotations : Labels
  pub provider_id : String
  pub unschedulable : Bool
  pub conditions : List NodeCondition
  pub addresses : List NodeAddress
  pub kubelet_version : String
  pub architecture : String

-- corev1.PodPhase
pub data PodPhase : Type 0 where
  pending running succeeded failed unknown : PodPhase

-- corev1.Volume, by whether its source is an emptyDir
pub record Volume : Type 0 where
  pub empty_dir : Bool

-- metav1.OwnerReference
pub record OwnerReference : Type 0 where
  pub kind : String

-- corev1.Pod
pub record Pod : Type 0 where
  pub namespace : String
  pub name : String
  pub annotations : Labels
  pub owners : List OwnerReference
  pub volumes : List Volume
  pub phase : PodPhase
  pub deletion_timestamp : Option Time

-- metav1.LabelSelector, of which the program only passes the pointer on
pub record LabelSelector : Type 0 where
  pub match_labels : Labels
  pub match_expressions : List String

-- coordinationv1.Lease, of which the program reads and writes two fields of the spec
pub record Lease : Type 0 where
  pub holder_identity : Option String
  pub renew_time : Option Time

-- batchv1.JobCondition
pub record JobCondition : Type 0 where
  pub kind : String
  pub status : ConditionStatus
  pub message : String

-- corev1.Container of an executor pod, with the one security context that the program gives it
pub record Container : Type 0 where
  pub name : String
  pub image : String
  pub command : List String
  pub variables : List (String × String)
  pub added_capabilities : List String
  pub dropped_capabilities : List String
  pub allow_privilege_escalation : Bool
  pub read_only_root_filesystem : Bool

-- batchv1.Job, as far as the program writes it
pub record Job : Type 0 where
  pub name : String
  pub namespace : String
  pub labels : Labels
  pub backoff_limit : ℤ
  pub ttl_seconds_after_finished : ℤ
  pub pod_labels : Labels
  pub pod_annotations : Labels
  pub service_account_name : String
  pub automount_token : Bool
  pub restart_policy : String
  pub node_name : String
  pub host_pid : Bool
  pub active_deadline_seconds : ℤ
  -- the operators of the tolerations
  pub tolerations : List String
  pub containers : List Container
  pub supplemental_groups : List ℤ

-- An etcd pod, by its name and the images of its containers
pub record EtcdPod : Type 0 where
  pub name : String
  pub images : List String
