-- ===== src/Examples/Deployed.antt =====
-- The adapters of provider.DefaultRegistry on a sample group.
use kubernetes_upgrade_opera.Base.{◌≡◌, refl, true, false, none, [], ◌∷◌}
use kubernetes_upgrade_opera.Types.{worker, aws_eks, NodeGroupUpgrade}
use kubernetes_upgrade_opera.Adapter.{Registry}
use kubernetes_upgrade_opera.Discovery.{DiscoveredGroup}
use kubernetes_upgrade_opera.Children.{resolve_strategy}
use kubernetes_upgrade_opera.Children.Supported.{supported, resolve_strategy-supported}
use kubernetes_upgrade_opera.NodeGroup.Reconcile.{initialised}
use kubernetes_upgrade_opera.NodeGroup.Stored.{Stored}
use kubernetes_upgrade_opera.Providers.{default_registry}
use kubernetes_upgrade_opera.Examples.Samples.{sample_env, sample_group}
use kubernetes_upgrade_opera.Examples.Executor.{executor_env}

abbrev deployed : Registry
deployed = default_registry executor_env sample_env

abbrev pool : NodeGroupUpgrade
pool = sample_group ("a" ∷ []) false

abbrev listed_pool : NodeGroupUpgrade
unfolding initialised
listed_pool = initialised pool

abbrev managed : DiscoveredGroup
managed = record {
  name = "pool";
  role = worker;
  provider = aws_eks;
  nodes = "a" ∷ [];
  provider_ref = none;
  heuristic = false;
}

resolve_strategy-supported_example :
    supported deployed aws_eks (resolve_strategy managed none) ≡ true
resolve_strategy-supported_example =
    resolve_strategy-supported executor_env sample_env managed none refl refl (λ e f. cc)
