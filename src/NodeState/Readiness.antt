-- ===== src/NodeState/Readiness.antt =====
-- The explanation that pkg/k8sutil/wait.go gives for a node that is not ready.
use kubernetes_upgrade_opera.Base.{
  String, Bool, true, false, Option, none, some, ◌≡◌, refl, ◌≢◌, ap, ◌↔◌, if◌then◌else◌,
}
use Prim.Native.String.{[], ◌∷◌, ◌++◌}
use text.Mathlib.TextLemmas.{cons-append}
use kubernetes_upgrade_opera.Core.{NodeCondition, Node}
use kubernetes_upgrade_opera.NodeState.{
  status_is_true, shown_reason, reason_of, ready_condition, is_node_ready, node_not_ready_reason,
}

is_blank : String → Bool
is_blank [] = true
is_blank (c ∷ s) = false

is_blank-append : (s t : String) → is_blank s ≡ false → is_blank (s ++ t) ≡ false
unfolding is_blank
is_blank-append [] t h = absurd cc
is_blank-append (c ∷ s) t h = rw cons-append refl

shown_reason-filled : (r : NodeCondition) → shown_reason r ≢ ""
unfolding is_blank
shown_reason-filled r e =
    let filled : is_blank (shown_reason r) ≡ false = is_blank-append "condition Ready is " _ refl in
    absurd (cc (filled, ap is_blank e))

by_status :
    (is_ready : Bool) (r : NodeCondition)
    → (is_ready ≡ true) ↔ ((if is_ready then "" else shown_reason r) ≡ "")
by_status true r = (λ e. refl, λ e. refl)
by_status false r = (λ e. absurd cc, λ e. absurd (shown_reason-filled r e))

by_condition :
    (c : Option NodeCondition)
    → (elim c [ none ↦ false | some r ↦ status_is_true r.status ] ≡ true) ↔ (reason_of c ≡ "")
unfolding reason_of
by_condition none = (λ e. absurd cc, λ e. absurd cc)
by_condition (some r) = by_status (status_is_true r.status) r

-- The explanation is empty exactly if the node is ready.
is_node_ready-reason :
    (node : Node) → (is_node_ready node ≡ true) ↔ (node_not_ready_reason node ≡ "")
unfolding is_node_ready node_not_ready_reason
is_node_ready-reason node = by_condition (ready_condition node)
