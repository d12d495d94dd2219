-- ===== src/Examples/Waits.antt =====
-- A node that is one minor version past its group's target, and the counts of its group.
use kubernetes_upgrade_opera.Base.{
  pos, ◌≡◌, refl, false, true, none, some, [], ◌∷◌, Ordering, int32, ◌+ℤ◌, arith, trim_prefix,
  trim_space,
}
use kubernetes_upgrade_opera.Core.{Node}
use kubernetes_upgrade_opera.Types.{empty, GroupPhase, NodeStage, NodeGroupUpgrade}
use kubernetes_upgrade_opera.Version.{Reads, parse_version}
use kubernetes_upgrade_opera.Version.Sample.{Numbers, sample, read_numbers, order}
use kubernetes_upgrade_opera.Cluster.{Env, update_status, found, write_status, ◌>>=◌}
use kubernetes_upgrade_opera.NodeGroup.Progress.{
  active_batch, is_active, is_set, with_progress, with_phase,
}
use kubernetes_upgrade_opera.NodeGroup.Counts.{
  count_at, put_count, add_one, counted_phase, zero_each, count_each, node_group_phase_counts,
}
use kubernetes_upgrade_opera.NodeGroup.Counts.Laws.{
  nodes_in, count_entry, node_group_phase_counts-entry,
}
use kubernetes_upgrade_opera.NodeGroup.Reconcile.{paused_condition, reconcile}
use kubernetes_upgrade_opera.NodeGroup.Reconcile.Stuck.{
  IsPast, Verifies, from, edited, reconciled, Later-Verifies,
}
use mathlib.Core.List.Memᴰ.{head}
use kubernetes_upgrade_opera.Examples.Samples.{
  sample_env, sample_node, sample_registry, sample_group,
}

abbrev newer_node : Node
newer_node = record (sample_node "a") { kubelet_version = "v1.31.0" }

abbrev newer_env : Env
newer_env = record sample_env { node_at = λ h name. found newer_node }

-- The group has passed over the node as Upgraded.
abbrev verifying_group : NodeGroupUpgrade
verifying_group =
    with_phase
      (with_progress (sample_group ("a" ∷ []) false) (
        record {
          name = "a";
          phase = NodeStage.upgraded;
          from_version = "v1.31.0";
          to_version = "v1.30.0";
          error = empty;
          started_at = some (pos 0);
          completed_at = none;
        }
        ∷ []))
      GroupPhase.verifying

abbrev newer : Numbers
newer = record { major = 1; minor = 31; patch = 0 }

abbrev wanted : Numbers
wanted = record { major = 1; minor = 30; patch = 0 }

reads_newer : Reads sample "v1.31.0" newer
unfolding parse_version trim_prefix trim_space read_numbers
reads_newer = record {
  accepted = refl;
  major_small = omega arith;
  minor_small = omega arith;
  patch_small = omega arith;
}

reads_wanted : Reads sample "v1.30.0" wanted
unfolding parse_version trim_prefix trim_space read_numbers
reads_wanted = record {
  accepted = refl;
  major_small = omega arith;
  minor_small = omega arith;
  patch_small = omega arith;
}

newer_gt : order newer wanted ≡ Ordering.gt
unfolding order
newer_gt = refl

one_active : active_batch verifying_group.status.node_progress ≡ "a" ∷ []
unfolding active_batch is_active is_set
one_active = refl

-- An environment in which the condition is always said to have changed.
abbrev marking_env : Env
marking_env = record newer_env { set_condition = λ conditions c. (c ∷ conditions, true) }

is_past : IsPast sample wanted marking_env "a"
is_past h = (newer_node, newer, refl, reads_newer, newer_gt)

abbrev held_group : NodeGroupUpgrade
held_group = record verifying_group { spec = record verifying_group.spec { hold = true } }

abbrev marked_group : NodeGroupUpgrade
marked_group = record held_group {
  status = record held_group.status {
    conditions = paused_condition held_group ∷ held_group.status.conditions;
  };
}

verifying_group-Verifies : Verifies "a" "v1.30.0" verifying_group
verifying_group-Verifies = record {
  verifying = refl;
  towards = refl;
  active = [];
  batch = one_active;
}

is_marked :
    (reconcile sample marking_env sample_registry held_group []).1 ≡ update_status marked_group ∷ []
unfolding reconcile ◌>>=◌ write_status
is_marked = refl

Later-Verifies_example : Verifies "a" "v1.30.0" marked_group
Later-Verifies_example = Later-Verifies sample "a" "v1.30.0" wanted reads_wanted marked_group (
    reconciled marking_env sample_registry held_group marked_group
      (edited verifying_group held_group.spec (from verifying_group verifying_group-Verifies) refl)
      is_past (rw is_marked (head refl)))

node_group_phase_counts-entry_example :
    count_at "Upgraded" (node_group_phase_counts verifying_group.status.node_progress)
    ≡ count_entry (nodes_in "Upgraded" verifying_group.status.node_progress)
node_group_phase_counts-entry_example =
    node_group_phase_counts-entry "Upgraded" verifying_group.status.node_progress

one_upgraded :
    node_group_phase_counts verifying_group.status.node_progress ≡ ("Upgraded", pos 1) ∷ []
unfolding node_group_phase_counts counted_phase zero_each count_each add_one put_count count_at
    int32 ◌+ℤ◌
one_upgraded = refl
