-- ===== src/Examples/Samples.antt =====
-- A sample cluster, a sample adapter and sample groups.
use kubernetes_upgrade_opera.Base.{pos, String, Bool, true, false, none, some, List, [], ◌∷◌}
use kubernetes_upgrade_opera.Core.{Node, is_true}
use kubernetes_upgrade_opera.Batches.{int_val, str_val, Scaled}
use kubernetes_upgrade_opera.Types.{
  worker, generic, replace, empty, GroupPhase, NodeGroupUpgrade, NodeGroupUpgradeSpec,
}
use kubernetes_upgrade_opera.Cluster.{Env, found, pure}
use kubernetes_upgrade_opera.Cluster.Rules.{Ensures-pure}
use kubernetes_upgrade_opera.Adapter.{NodePhase, NodeResult, Adapter, Registry}
use kubernetes_upgrade_opera.Adapter.Quiet.{AllQuiet}
use kubernetes_upgrade_opera.NodeGroup.Invariant.{Writes}

-- A ready node at the target version, without pods.
abbrev pub sample_node : String → Node
sample_node name = record {
  name = name;
  labels = [];
  annotations = [];
  provider_id = "";
  unschedulable = false;
  conditions = record { kind = "Ready"; status = is_true; reason = ""; message = "" } ∷ [];
  addresses = [];
  kubelet_version = "v1.30.0";
  architecture = "amd64";
}

-- Percentages are not used.
abbrev pub sample_scaled : Scaled
sample_scaled (int_val n) total = some n
sample_scaled (str_val s) total = none

-- A cluster that answers every call without an error.
abbrev pub sample_env : Env
sample_env = record {
  node_at = λ h name. found (sample_node name);
  pods_at = λ h name. found [];
  patch_reply = λ h name b. none;
  evict_reply = λ h pod. none;
  delete_reply = λ h namespace name. none;
  delete_node_reply = λ h name. none;
  status_reply = λ h ng. none;
  clock = λ h. pos 0;
  set_condition = λ conditions c. (conditions, false);
  scaled = sample_scaled;
}

abbrev all_upgraded : List Node → List NodeResult
all_upgraded [] = []
all_upgraded (node ∷ batch) =
    record { node_name = node.name; phase = NodePhase.upgraded; error = none } ∷ all_upgraded batch

-- An adapter that is ready at once and reports each node as upgraded.
abbrev pub sample_adapter : Adapter
sample_adapter = record {
  kind = generic;
  supports_strategy = λ s. true;
  precheck = λ ng. pure (true, "");
  begin_batch = λ ng batch. pure tt;
  poll_batch = λ ng batch. pure (all_upgraded batch);
  verify = λ ng. pure (true, "");
}

abbrev pub sample_registry : Registry
sample_registry = (generic, sample_adapter) ∷ []

pub sample_quiet :
    (spec : NodeGroupUpgradeSpec) → AllQuiet (Writes sample_scaled spec) sample_registry
sample_quiet spec = (
  record {
    precheck = λ ng. Ensures-pure _ tt;
    begin_batch = λ ng batch. Ensures-pure _ tt;
    poll_batch = λ ng batch. Ensures-pure _ tt;
    verify = λ ng. Ensures-pure _ tt;
  },
  tt,
)

-- A new group of the nodes, one at a time, for v1.30.0.
abbrev pub sample_group : List String → Bool → NodeGroupUpgrade
sample_group nodes paused = record {
  name = "workers";
  namespace = "";
  labels = [];
  annotations = [];
  generation = pos 1;
  spec = record {
    target_version = "v1.30.0";
    role = worker;
    provider = generic;
    strategy = replace;
    nodes = nodes;
    provider_ref = none;
    batch_size = none;
    max_unavailable = none;
    drain = record {
      timeout_seconds = none;
      force = false;
      grace_period_seconds = none;
      ignore_daemon_sets = true;
      delete_empty_dir_data = false;
    };
    hold = false;
    paused = paused;
  };
  status = record {
    phase = GroupPhase.unset;
    observed_generation = pos 0;
    conditions = [];
    total_nodes = pos 0;
    upgraded_nodes = pos 0;
    node_progress = [];
    message = empty;
  };
}
