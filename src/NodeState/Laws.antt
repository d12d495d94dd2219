-- ===== src/NodeState/Laws.antt =====
-- The calls by which pkg/k8sutil/cordon.go and pkg/k8sutil/wait.go act.
use kubernetes_upgrade_opera.Base.{String, Bool, true, false, if◌then◌else◌}
use kubernetes_upgrade_opera.Cluster.{
  Call, get_node, patch_unschedulable, Env, pure, in_context, write_unschedulable,
}
use kubernetes_upgrade_opera.Cluster.Rules.{
  Any, Ensures, Ensures-pure, Ensures-in_context, Ensures-bind, Ensures-read_node,
  Ensures-write_unschedulable,
}
use kubernetes_upgrade_opera.NodeState.{same_bool, fetch_node, set_unschedulable, cordon, uncordon}

module _ {C : Call → Type 0} (env : Env) (name : String) where
  pub fetch_node-calls : C (get_node name) → Ensures C (fetch_node env name) Any
  unfolding fetch_node
  fetch_node-calls k = Ensures-in_context _ _ (Ensures-read_node env name k)

  patched :
      (b same : Bool)
      → C (patch_unschedulable name b)
      → Ensures C
          (if same then pure tt else in_context "patching node" (write_unschedulable env name b))
          Any
  patched b true k = Ensures-pure tt tt
  patched b false k = Ensures-in_context _ _ (Ensures-write_unschedulable env name b k)

  set_unschedulable-calls :
      (b : Bool)
      → C (get_node name)
      → C (patch_unschedulable name b)
      → Ensures C (set_unschedulable env name b) Any
  unfolding set_unschedulable
  set_unschedulable-calls b k w =
      Ensures-bind _ _ (fetch_node-calls k) (λ node _. patched b (same_bool node.unschedulable b) w)

  pub cordon-calls :
      C (get_node name) → C (patch_unschedulable name true) → Ensures C (cordon env name) Any
  unfolding cordon
  cordon-calls k w = set_unschedulable-calls true k w

  pub uncordon-calls :
      C (get_node name) → C (patch_unschedulable name false) → Ensures C (uncordon env name) Any
  unfolding uncordon
  uncordon-calls k w = set_unschedulable-calls false k w
