-- ===== src/Providers/Keeps.antt =====
-- Node groups whose adapters are those of provider.DefaultRegistry.
use kubernetes_upgrade_opera.NodeGroup.Stored.{Stored}
