-- ===== src/NodeState.antt =====
-- pkg/k8sutil/cordon.go and pkg/k8sutil/wait.go: one node's readiness, version and cordon.
pub mod Laws
pub mod Readiness
use kubernetes_upgrade_opera.Base.{
  Ordering, String, Bool, true, false, not, Option, none, some, List, [], ◌∷◌, if◌then◌else◌,
  str_eq,
}
use Prim.Native.String.{◌++◌}
use text.Mathlib.Text.{is_eq}
use kubernetes_upgrade_opera.Result.{Result, ok, ◌>>=◌ as then_result}
use kubernetes_upgrade_opera.Core.{
  ConditionStatus, is_true, is_false, is_unknown, NodeCondition, Node,
}
use kubernetes_upgrade_opera.Version.{Semver, compare_versions}
use kubernetes_upgrade_opera.Cluster.{
  Env, Run, pure, in_context, read_node, write_unschedulable, ◌>>=◌,
}

-- the first condition of type "Ready"
unfoldable pub ready_in : List NodeCondition → Option NodeCondition
ready_in [] = none
ready_in (c ∷ cs) = if str_eq c.kind "Ready" then some c else ready_in cs

unfoldable pub ready_condition : Node → Option NodeCondition
unfolding ready_in
ready_condition node = ready_in node.conditions

abbrev pub status_is_true : ConditionStatus → Bool
status_is_true is_true = true
status_is_true is_false = false
status_is_true is_unknown = false

unfoldable pub is_node_ready : Node → Bool
unfolding ready_condition
is_node_ready node = elim (ready_condition node) [ none ↦ false | some c ↦ status_is_true c.status ]

-- the text of a corev1.ConditionStatus
abbrev status_text : ConditionStatus → String
status_text is_true = "True"
status_text is_false = "False"
status_text is_unknown = "Unknown"

abbrev shown_reason : NodeCondition → String
shown_reason c =
    "condition Ready is " ++ status_text c.status ++ ": " ++ c.reason ++ " - " ++ c.message

-- the explanation, given the Ready condition
unfoldable pub reason_of : Option NodeCondition → String
reason_of none = "node has not reported a Ready condition yet"
reason_of (some c) = if status_is_true c.status then "" else shown_reason c

unfoldable pub node_not_ready_reason : Node → String
unfolding ready_condition reason_of
node_not_ready_reason node = reason_of (ready_condition node)

unfoldable pub node_is_at_version : Semver → Node → String → Result Bool
node_is_at_version S node target =
    then_result (compare_versions S node.kubelet_version target) (λ cmp. ok (is_eq cmp))

abbrev same_bool : Bool → Bool → Bool
same_bool true b = b
same_bool false b = not b

module _ (env : Env) where
  unfoldable pub fetch_node : String → Run Node
  fetch_node name = in_context "getting node" (read_node env name)

  patch_if_needed : String → Bool → Node → Run (Unit {0})
  patch_if_needed name unschedulable node =
      if same_bool node.unschedulable unschedulable
      then pure tt
      else in_context "patching node" (write_unschedulable env name unschedulable)

  unfoldable pub set_unschedulable : String → Bool → Run (Unit {0})
  unfolding patch_if_needed fetch_node
  set_unschedulable name unschedulable = fetch_node name >>= patch_if_needed name unschedulable

  unfoldable pub cordon : String → Run (Unit {0})
  cordon name = set_unschedulable name true

  unfoldable pub uncordon : String → Run (Unit {0})
  uncordon name = set_unschedulable name false
