-- ===== src/NodeGroup/Verifying/Waits.antt =====
-- reconcileVerifying of a batch whose first node is past the target version.
use kubernetes_upgrade_opera.Base.{String, ◌≡◌, false, List, ◌∷◌, Ordering, Bool-cases, inl, inr}
use kubernetes_upgrade_opera.Result.{ok}
use kubernetes_upgrade_opera.Core.{Node}
use kubernetes_upgrade_opera.Types.{NodeGroupUpgrade}
use kubernetes_upgrade_opera.Version.{Semver, Reads}
use kubernetes_upgrade_opera.Version.Laws.{compare_versions-ok}
use kubernetes_upgrade_opera.NodeState.{is_node_ready, node_is_at_version, fetch_node}
use kubernetes_upgrade_opera.Adapter.{Registry}
use kubernetes_upgrade_opera.Cluster.{
  Env, History, get_node, found, pure, lift, in_context, read_node, ◌>>=◌,
}
use kubernetes_upgrade_opera.NodeGroup.Progress.{active_batch}
use kubernetes_upgrade_opera.NodeGroup.Draining.{requeue_after}
use kubernetes_upgrade_opera.NodeGroup.Verifying.{
  check_node, all_at_target, after_checks, verify_active, reconcile_verifying,
}

module _ {S : Semver} (env : Env) (adapters : Registry) (ng : NodeGroupUpgrade) (node : Node)
    {u v : S.Version} (p : Reads S node.kubelet_version u) (q : Reads S ng.spec.target_version v)
    (past : S.compare u v ≡ Ordering.gt) where
  not_at_target : node_is_at_version S node ng.spec.target_version ≡ ok false
  unfolding node_is_at_version
  not_at_target = rw (compare_versions-ok p q, past)

  check_node-past : (h : History) → check_node S env ng.spec.target_version node h ≡ (ok false, h)
  unfolding check_node pure lift in_context
  check_node-past h = elim (Bool-cases (is_node_ready node)) [
    | inl ready ↦ rw (ready, not_at_target)
    | inr waiting ↦ rw waiting
  ]

  -- Let the first node of the active batch be found, and its version be past the target, where both
  -- are read. Then a reconcile in Verifying only reads that node and waits for another 15 seconds.
  pub reconcile_verifying-past :
      (name : String) (active : List String) (h : History)
      → active_batch ng.status.node_progress ≡ name ∷ active
      → env.node_at h name ≡ found node
      → reconcile_verifying S env adapters ng h ≡ (ok (requeue_after 15), get_node name ∷ h)
  unfolding reconcile_verifying verify_active all_at_target fetch_node ◌>>=◌ in_context read_node
      pure after_checks
  reconcile_verifying-past name active h batch there = rw (batch, there, check_node-past)
