-- ===== src/NodeGroup/Reconcile/Keeps.antt =====
-- Reconcile of nodegroupupgrade_controller.go and the invariant of a group.
use kubernetes_upgrade_opera.Base.{
  pos, int32, String, ◌≡◌, refl, Bool, true, false, List, [], ◌∷◌, ap, ◌∙◌,
}
use kubernetes_upgrade_opera.Batches.{Scaled}
use kubernetes_upgrade_opera.Batches.Limit.{resolve_concurrency-nonneg}
use kubernetes_upgrade_opera.Types.{GroupPhase, NodeGroupUpgrade}
use kubernetes_upgrade_opera.Version.{Semver}
use kubernetes_upgrade_opera.Adapter.{Registry}
use kubernetes_upgrade_opera.Adapter.Quiet.{AllQuiet}
use kubernetes_upgrade_opera.Cluster.{Env, pure}
use kubernetes_upgrade_opera.Cluster.Rules.{
  Any, Ensures, Ensures-pure, Ensures-if, Ensures-bind, Ensures-write_status,
}
use kubernetes_upgrade_opera.NodeGroup.Progress.{init_node_progress, is_active}
use kubernetes_upgrade_opera.NodeGroup.Progress.Changes.{entry_names, Distinct}
use kubernetes_upgrade_opera.NodeGroup.Progress.Counts.{active_count, completed_count}
use kubernetes_upgrade_opera.NodeGroup.Invariant.{
  has_begun, midway, Inv, fresh, waiting, underway, Writes, Running, Running-Writes,
}
use kubernetes_upgrade_opera.NodeGroup.Draining.{done, requeue}
use kubernetes_upgrade_opera.NodeGroup.Draining.Keeps.{reconcile_draining-Writes}
use kubernetes_upgrade_opera.NodeGroup.Upgrading.Keeps.{reconcile_upgrading-Writes}
use kubernetes_upgrade_opera.NodeGroup.Verifying.Keeps.{reconcile_verifying-Writes}
use kubernetes_upgrade_opera.NodeGroup.Reconcile.{
  initialised, reconcile_pending, reset, needs_reset, by_phase, set_conditions, write_condition,
  unless_held, reconcile,
}

-- The progress that a group starts with.
entry_names-init_node_progress :
    (nodes : List String) (target : String) → entry_names (init_node_progress nodes target) ≡ nodes
unfolding init_node_progress
entry_names-init_node_progress [] target = refl
entry_names-init_node_progress (n ∷ nodes) target =
    ap (λ ns. n ∷ ns) (entry_names-init_node_progress nodes target)

active_count-init_node_progress :
    (nodes : List String) (target : String) → active_count (init_node_progress nodes target) ≡ 0
unfolding init_node_progress active_count is_active
active_count-init_node_progress [] target = refl
active_count-init_node_progress (n ∷ nodes) target = active_count-init_node_progress nodes target

completed_count-init_node_progress :
    (nodes : List String) (target : String) → completed_count (init_node_progress nodes target) ≡ 0
unfolding init_node_progress completed_count
completed_count-init_node_progress [] target = refl
completed_count-init_node_progress (n ∷ nodes) target =
    completed_count-init_node_progress nodes target

int32_zero : pos 0 ≡ int32 (pos 0)
unfolding int32
int32_zero = refl

-- A group whose progress is listed runs, unless it is Complete.
Inv-Running :
    {scaled : Scaled} (ng : NodeGroupUpgrade)
    → Inv scaled ng
    → midway ng.status.phase ≡ true
    → Running scaled ng.spec ng
Inv-Running ng (fresh e z) h = absurd (cc (rw e at h))
Inv-Running ng (waiting e z) h = absurd (cc (rw e at h))
Inv-Running ng (underway t b c) h = record { same_spec = refl; tracked = t; unfinished = h }

-- A group whose progress is not listed counts no upgraded node.
Inv-uncounted :
    {scaled : Scaled} (ng : NodeGroupUpgrade)
    → Inv scaled ng
    → has_begun ng.status.phase ≡ false
    → ng.status.upgraded_nodes ≡ pos 0
Inv-uncounted ng (fresh e z) h = z
Inv-uncounted ng (waiting e z) h = z
Inv-uncounted ng (underway t b c) h = cc

module _ (S : Semver) (env : Env) (adapters : Registry) where
  initialised-Running :
      (ng : NodeGroupUpgrade)
      → ng.status.upgraded_nodes ≡ pos 0
      → Running env.scaled ng.spec (initialised ng)
  unfolding initialised
  initialised-Running ng none_yet = record {
    same_spec = refl;
    tracked = record {
      named = entry_names-init_node_progress ng.spec.nodes ng.spec.target_version;
      within = rw active_count-init_node_progress (λ limit e.
          resolve_concurrency-nonneg env.scaled _ ng.spec.batch_size ng.spec.max_unavailable e);
      counted = rw completed_count-init_node_progress (none_yet ∙ int32_zero);
    };
    unfinished = refl;
  }

  reconcile_pending-Writes :
      (ng : NodeGroupUpgrade)
      → ng.status.upgraded_nodes ≡ pos 0
      → Ensures (Writes env.scaled ng.spec) (reconcile_pending S env adapters ng) Any
  unfolding reconcile_pending
  reconcile_pending-Writes ng none_yet =
      Ensures-bind _ _
        (Ensures-write_status env (initialised ng)
          (Running-Writes (initialised-Running ng none_yet)))
        (λ _ _. Ensures-pure _ tt)

  by_phase-Writes :
      (phase : GroupPhase) (ng : NodeGroupUpgrade)
      → AllQuiet (Writes env.scaled ng.spec) adapters
      → Distinct ng.spec.nodes
      → ng.status.phase ≡ phase
      → Inv env.scaled ng
      → Ensures (Writes env.scaled ng.spec) (by_phase S env adapters phase ng) Any
  unfolding by_phase
  by_phase-Writes GroupPhase.unset ng quiet d e i =
      reconcile_pending-Writes ng (Inv-uncounted ng i (ap has_begun e))
  by_phase-Writes GroupPhase.pending ng quiet d e i =
      reconcile_pending-Writes ng (Inv-uncounted ng i (ap has_begun e))
  by_phase-Writes GroupPhase.draining ng quiet d e i =
      reconcile_draining-Writes env d ng refl (Inv-Running ng i (ap midway e))
  by_phase-Writes GroupPhase.upgrading ng quiet d e i =
      reconcile_upgrading-Writes S env adapters quiet ng (Inv-Running ng i (ap midway e))
  by_phase-Writes GroupPhase.verifying ng quiet d e i =
      reconcile_verifying-Writes S env d adapters quiet ng (Inv-Running ng i (ap midway e))
  by_phase-Writes GroupPhase.complete ng quiet d e i = Ensures-pure _ tt
  by_phase-Writes GroupPhase.failed ng quiet d e i = Ensures-pure _ tt
  by_phase-Writes GroupPhase.paused ng quiet d e i = Ensures-pure _ tt
  by_phase-Writes (GroupPhase.other_phase p) ng quiet d e i = Ensures-pure _ tt

  unless_held-Writes :
      (ng : NodeGroupUpgrade)
      → AllQuiet (Writes env.scaled ng.spec) adapters
      → Distinct ng.spec.nodes
      → Inv env.scaled ng
      → Ensures (Writes env.scaled ng.spec) (unless_held S env adapters ng) Any
  unfolding unless_held reset
  unless_held-Writes ng quiet d i = Ensures-if ng.spec.paused _ _ (Ensures-pure done tt) (
      Ensures-if ng.spec.hold _ _ (Ensures-pure done tt) (
        Ensures-if (needs_reset ng) _ _
          (Ensures-bind _ (λ _. pure requeue)
            (Ensures-write_status env (reset ng) (refl, fresh refl refl))
            (λ _ _. Ensures-pure _ tt))
          (by_phase-Writes ng.status.phase ng quiet d refl i)))

  set_conditions-Inv :
      (ng : NodeGroupUpgrade)
      → Inv env.scaled ng
      → Inv env.scaled (set_conditions S env adapters ng)
  unfolding set_conditions
  set_conditions-Inv ng (fresh e z) = fresh e z
  set_conditions-Inv ng (waiting e z) = waiting e z
  set_conditions-Inv ng (underway t b c) = underway t b c

  write_condition-Writes :
      (b : Bool) (ng : NodeGroupUpgrade)
      → Inv env.scaled ng
      → Ensures (Writes env.scaled ng.spec) (write_condition S env adapters b ng) Any
  unfolding write_condition
  write_condition-Writes true ng i = Ensures-write_status env ng (refl, i)
  write_condition-Writes false ng i = Ensures-pure _ tt

  -- Let no adapter write a status that breaks the invariant, and let the nodes of the spec differ. A
  -- reconcile of a group with the invariant, against any cluster, keeps it in every status that it
  -- writes: no more nodes are started and not completed than the concurrency limit, the progress
  -- names the nodes of the spec in order, upgradedNodes counts the completed ones, and a Complete
  -- group has completed all. It leaves the spec as it is.
  pub reconcile-Writes :
      (ng : NodeGroupUpgrade)
      → AllQuiet (Writes env.scaled ng.spec) adapters
      → Distinct ng.spec.nodes
      → Inv env.scaled ng
      → Ensures (Writes env.scaled ng.spec) (reconcile S env adapters ng) Any
  unfolding reconcile set_conditions
  reconcile-Writes ng quiet d i =
      let i' = set_conditions-Inv ng i in
      Ensures-bind _ _ (write_condition-Writes _ (set_conditions S env adapters ng) i')
        (λ _ _. unless_held-Writes (set_conditions S env adapters ng) quiet d i')
