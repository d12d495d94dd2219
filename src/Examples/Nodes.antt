-- ===== src/Examples/Nodes.antt =====
-- Drains and replacements on concrete inputs.
use kubernetes_upgrade_opera.Base.{
  String, str_eq, Bool, ◌*◌, ◌<◌, ◌↔◌, ◌⊎◌, length, ◌≡◌, refl, true, false, none, List, [], ◌∷◌,
}
use kubernetes_upgrade_opera.Health.{check_etcd_healthz_endpoints, count_healthy}
use kubernetes_upgrade_opera.Health.Majority.{check_etcd_healthz_endpoints_iff}
use kubernetes_upgrade_opera.Result.{ok}
use kubernetes_upgrade_opera.Core.{Pod, PodPhase}
use kubernetes_upgrade_opera.Cluster.{
  Env, found, ◌>>=◌, pure, lift, attempt, in_context, read_node, read_pods,
}
use kubernetes_upgrade_opera.Cluster.Rules.{Any, Ensures}
use kubernetes_upgrade_opera.Drain.{
  DrainOptions, drain_node, drain_pods, remaining, settled, status_of, skipped,
}
use kubernetes_upgrade_opera.Drain.Emptied.{
  EvictsEvictable, Emptied, drain_node-Evictable, drain_node-Emptied,
}
use kubernetes_upgrade_opera.Types.{NodeGroupUpgradeSpec}
use kubernetes_upgrade_opera.Adapter.{NodePhase, NodeResult}
use kubernetes_upgrade_opera.Adapter.Generic.{poll_replace_batch}
use kubernetes_upgrade_opera.Adapter.Generic.Laws.{AllReported, poll_replace_batch-AllReported}
use kubernetes_upgrade_opera.Examples.Samples.{sample_env, sample_node, sample_group}

abbrev options : DrainOptions
options = record {
  grace_period_seconds = none;
  ignore_daemon_sets = true;
  delete_empty_dir_data = false;
}

-- A pod that has ended.
abbrev ended_pod : Pod
ended_pod = record {
  namespace = "default";
  name = "job";
  annotations = [];
  owners = [];
  volumes = [];
  phase = PodPhase.succeeded;
  deletion_timestamp = none;
}

-- A cluster in which every node has that pod.
abbrev busy_env : Env
busy_env = record sample_env { pods_at = λ h name. found (ended_pod ∷ []) }

drained : (drain_node busy_env options "a" []).0 ≡ ok (status_of ended_pod skipped ∷ [])
unfolding drain_node drain_pods settled ◌>>=◌ pure lift in_context read_pods
drained = refl

none_remaining : remaining (status_of ended_pod skipped ∷ []) ≡ 0
unfolding remaining
none_remaining = refl

drain_node-Evictable_example :
    Ensures (EvictsEvictable options) (drain_node busy_env options "a") Any
drain_node-Evictable_example = drain_node-Evictable busy_env options "a"

drain_node-Emptied_example : Emptied busy_env options "a"
drain_node-Emptied_example =
    drain_node-Emptied busy_env options "a" [] (status_of ended_pod skipped ∷ []) drained
      none_remaining

abbrev polled : List NodeResult
polled = record { node_name = "a"; phase = NodePhase.in_progress; error = none } ∷ []

polled_once : (poll_replace_batch sample_env (sample_node "a" ∷ []) []).0 ≡ ok polled
unfolding poll_replace_batch ◌>>=◌ pure attempt read_node
polled_once = refl

poll_replace_batch-AllReported_example : AllReported sample_env (sample_node "a" ∷ []) polled
poll_replace_batch-AllReported_example =
    poll_replace_batch-AllReported sample_env (sample_node "a" ∷ []) [] polled polled_once

abbrev sample_spec : NodeGroupUpgradeSpec
sample_spec = (sample_group ("a" ∷ []) false).spec

-- One of the two URLs answers 200 OK.
abbrev urls : List String
urls = "a" ∷ "b" ∷ []

abbrev one_answers : String → Bool
one_answers url = str_eq url "a"

check_etcd_healthz_endpoints_iff_example :
    ((check_etcd_healthz_endpoints one_answers urls).healthy ≡ true)
    ↔ ((urls ≡ []) ⊎ (length urls < 2 * count_healthy one_answers urls))
check_etcd_healthz_endpoints_iff_example = check_etcd_healthz_endpoints_iff one_answers urls
