-- ===== src/Types.antt =====
-- api/v1alpha1: the two custom resources. A pointer field is an `Option`, an int32 a signed number,
-- and a string type with declared constants a data type, with what else its string may be.
use kubernetes_upgrade_opera.Base.{ℤ, String, Bool, Option, List}
use kubernetes_upgrade_opera.Result.{Error}
use kubernetes_upgrade_opera.Core.{Time, Labels, ConditionStatus, LabelSelector}
use kubernetes_upgrade_opera.Batches.{IntOrString}
use kubernetes_upgrade_opera.StepPlan.{UpgradeStep}

-- NodeGroupRole
pub data Role : Type 0 where
  control_plane worker : Role

-- ProviderType
pub data ProviderType : Type 0 where
  kubeadm aws_eks aws_asg linode_lke generic : ProviderType
  other_provider : String → ProviderType

-- NodeGroupStrategy
pub data Strategy : Type 0 where
  in_place replace : Strategy

-- The messages that the program writes, with what they name.
pub data Message : Type 0 where
  empty : Message
  plain : String → Message
  of_error : Error → Message
  no_adapter : ProviderType → Message
  provider_missing : String → ProviderType → Message
  step_failed : String → Error → Message
  node_failed : String → Message → Message
  group_failed : String → Message → Message
  drain_stuck : String → ℤ → Message
  upgraded_to : String → Message

-- metav1.Condition, without the times that the library fills in
pub record Condition : Type 0 where
  pub kind : String
  pub status : ConditionStatus
  pub reason : String
  pub message : Message

pub record AwsEksNodeGroupRef : Type 0 where
  pub cluster_name : String
  pub node_group_name : String
  pub region : String

pub record AwsAutoScalingGroupRef : Type 0 where
  pub asg_name : String
  pub region : String

pub record LinodeLkePoolRef : Type 0 where
  pub cluster_id : String
  pub pool_id : String

pub record ProviderRef : Type 0 where
  pub aws_eks : Option AwsEksNodeGroupRef
  pub aws_asg : Option AwsAutoScalingGroupRef
  pub linode_lke : Option LinodeLkePoolRef

pub record DrainPolicy : Type 0 where
  pub timeout_seconds : Option ℤ
  pub force : Bool
  pub grace_period_seconds : Option ℤ
  pub ignore_daemon_sets : Bool
  pub delete_empty_dir_data : Bool

pub record NodeGroupUpgradeSpec : Type 0 where
  pub target_version : String
  pub role : Role
  pub provider : ProviderType
  pub strategy : Strategy
  pub nodes : List String
  pub provider_ref : Option ProviderRef
  pub batch_size : Option ℤ
  pub max_unavailable : Option IntOrString
  pub drain : DrainPolicy
  pub hold : Bool
  pub paused : Bool

-- NodeGroupUpgradePhase
pub data GroupPhase : Type 0 where
  unset pending draining upgrading verifying complete failed paused : GroupPhase
  other_phase : String → GroupPhase

-- The values that the program writes into NodeProgress.Phase, "" among them.
pub data NodeStage : Type 0 where
  waiting draining drained upgrading upgraded failed ready : NodeStage

pub record NodeProgress : Type 0 where
  pub name : String
  pub phase : NodeStage
  pub from_version : String
  pub to_version : String
  pub error : Message
  pub started_at : Option Time
  pub completed_at : Option Time

pub record NodeGroupUpgradeStatus : Type 0 where
  pub phase : GroupPhase
  pub observed_generation : ℤ
  pub conditions : List Condition
  pub total_nodes : ℤ
  pub upgraded_nodes : ℤ
  pub node_progress : List NodeProgress
  pub message : Message

pub record NodeGroupUpgrade : Type 0 where
  pub name : String
  pub namespace : String
  pub labels : Labels
  pub annotations : Labels
  pub generation : ℤ
  pub spec : NodeGroupUpgradeSpec
  pub status : NodeGroupUpgradeStatus

pub record UpgradeScope : Type 0 where
  pub node_selector : Option LabelSelector

pub record UpgradeDefaults : Type 0 where
  pub max_unavailable : Option IntOrString
  pub batch_size : Option ℤ
  pub drain_timeout_seconds : Option ℤ
  pub force_drain_after_timeout : Option Bool
  pub node_ready_timeout_seconds : Option ℤ

pub record NodeGroupOverride : Type 0 where
  pub group_name : String
  pub strategy : Option Strategy
  pub max_unavailable : Option IntOrString
  pub batch_size : Option ℤ
  pub pause : Option Bool
  pub skip : Option Bool
  pub acknowledge_replace_risk : Bool

pub record SafetyPolicy : Type 0 where
  pub require_etcd_quorum : Bool
  pub control_plane_health_timeout_seconds : Option ℤ
  pub allow_downgrade : Bool

pub record KubernetesUpgradeSpec : Type 0 where
  pub target_version : String
  pub paused : Bool
  pub scope : Option UpgradeScope
  pub defaults : Option UpgradeDefaults
  pub group_overrides : List NodeGroupOverride
  pub safety : Option SafetyPolicy

-- KubernetesUpgradePhase
pub data UpgradePhase : Type 0 where
  unset pending discovering prechecks control_plane_upgrade workers_upgrade postchecks complete
        failed paused :
      UpgradePhase
  other_phase : String → UpgradePhase

pub record ControlPlaneUpgradeStatus : Type 0 where
  pub total_nodes : ℤ
  pub upgraded_nodes : ℤ
  pub current_node : String
  pub version : String

pub record DiscoveredGroupStatus : Type 0 where
  pub name : String
  pub provider : ProviderType
  pub strategy : Strategy
  pub role : Role
  pub phase : GroupPhase
  pub node_count : ℤ
  pub child_ref_name : String
  pub heuristic : Bool

pub record KubernetesUpgradeStatus : Type 0 where
  pub phase : UpgradePhase
  pub observed_generation : ℤ
  pub conditions : List Condition
  pub starting_version : String
  pub step_plan : List UpgradeStep
  pub current_step_index : ℤ
  pub control_plane : ControlPlaneUpgradeStatus
  pub discovered_groups : List DiscoveredGroupStatus
  pub message : Message

pub record KubernetesUpgrade : Type 0 where
  pub name : String
  pub namespace : String
  pub generation : ℤ
  pub deleting : Bool
  pub finalizers : List String
  pub spec : KubernetesUpgradeSpec
  pub status : KubernetesUpgradeStatus
