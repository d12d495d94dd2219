-- ===== src/NodeGroup/Upgrading/Progress.antt =====
-- The changes that reconcileUpgrading makes to the progress, and the invariant of a group.
use kubernetes_upgrade_opera.Base.{
  String, refl, Bool, true, false, Option, none, some, List, [], ◌∷◌, arith, if◌then◌else◌,
}
use kubernetes_upgrade_opera.Core.{Node}
use kubernetes_upgrade_opera.Batches.{Scaled}
use kubernetes_upgrade_opera.Types.{
  NodeStage, NodeProgress, NodeGroupUpgrade, NodeGroupUpgradeSpec, Message,
}
use kubernetes_upgrade_opera.Version.{Semver, compare_versions}
use kubernetes_upgrade_opera.Adapter.{NodePhase, NodeResult}
use kubernetes_upgrade_opera.NodeGroup.Progress.{
  is_active, change_named, entry, with_stage, with_progress,
}
use kubernetes_upgrade_opera.NodeGroup.Progress.Counts.{is_completed, KeepsTimes}
use kubernetes_upgrade_opera.NodeGroup.Invariant.{Tracked, Running, Tracked-change, stage_times}
use kubernetes_upgrade_opera.NodeGroup.Upgrading.{
  at_or_past, skip_upgraded, mark_upgrading, failure_text, failed_entry, Polled, node_failure,
  polled, take_one, take_results,
}

failed_times : (m : Message) → KeepsTimes (failed_entry m)
unfolding is_completed is_active
failed_times m np = (ground arith, refl)

-- The group behind the loop over the results.
abbrev pub RunningPolled : Scaled → NodeGroupUpgradeSpec → Polled → Type 0
RunningPolled scaled spec (node_failure ng) = Running scaled spec ng
RunningPolled scaled spec (polled ng all) = Running scaled spec ng

-- The progress behind the loop over nodes that need nothing.
abbrev pub TrackedSkip :
    Scaled → NodeGroupUpgradeSpec → NodeGroupUpgrade → List Node × List NodeProgress × Bool → Type 0
TrackedSkip scaled spec ng (batch, progress, changed) =
    Tracked scaled spec progress ng.status.upgraded_nodes

module _ {scaled : Scaled} {spec : NodeGroupUpgradeSpec} where
  change_stage :
      (ng : NodeGroupUpgrade) (name : String) (stage : NodeStage)
      → Running scaled spec ng
      → Running scaled spec
          (with_progress ng (change_named name (with_stage stage) ng.status.node_progress))
  change_stage ng name stage r = record {
    same_spec = r.same_spec;
    tracked = Tracked-change name (with_stage stage) (λ np. refl) (stage_times stage) r.tracked;
    unfinished = r.unfinished;
  }

  take_one-Running :
      (ng : NodeGroupUpgrade) (all : Bool) (res : NodeResult) (phase : NodePhase)
      → Running scaled spec ng
      → Running scaled spec (take_one ng all res phase).0
  unfolding take_one
  take_one-Running ng all res NodePhase.upgraded r =
      change_stage ng res.node_name NodeStage.upgraded r
  take_one-Running ng all res NodePhase.failed r = record {
    same_spec = r.same_spec;
    tracked =
        Tracked-change res.node_name _ (λ np. refl) (failed_times (failure_text res.error))
          r.tracked;
    unfinished = refl;
  }
  take_one-Running ng all res NodePhase.in_progress r = r

  pub take_results-Running :
      (ng : NodeGroupUpgrade) (all : Bool) (results : List NodeResult)
      → Running scaled spec ng
      → RunningPolled scaled spec (take_results ng all results)
  unfolding take_results
  take_results-Running ng all [] r = r
  take_results-Running ng all (res ∷ results) r =
      let one = take_one ng all res res.phase in
      let r' = take_one-Running ng all res res.phase r in
      by_entry (entry ng.status.node_progress res.node_name) one.2 (take_results ng all results)
        (take_results one.0 one.1 results) r' (take_results-Running ng all results r)
        (take_results-Running one.0 one.1 results r')
    where
      by_entry :
          (found : Option NodeProgress) (failed : Bool) (unknown rest : Polled)
          {stopped : NodeGroupUpgrade}
          → Running scaled spec stopped
          → RunningPolled scaled spec unknown
          → RunningPolled scaled spec rest
          → RunningPolled scaled spec (elim found [
            | none ↦ unknown
            | some np ↦ if failed then node_failure stopped else rest
          ])
      by_entry none failed unknown rest s u t = u
      by_entry (some np) true unknown rest s u t = s
      by_entry (some np) false unknown rest s u t = t

  pub mark_upgrading-Tracked :
      (ng : NodeGroupUpgrade) (batch : List Node) (progress : List NodeProgress)
      → Tracked scaled spec progress ng.status.upgraded_nodes
      → Tracked scaled spec (mark_upgrading batch progress) ng.status.upgraded_nodes
  unfolding mark_upgrading
  mark_upgrading-Tracked ng [] progress t = t
  mark_upgrading-Tracked ng (node ∷ batch) progress t = mark_upgrading-Tracked ng batch _ (
      Tracked-change node.name (with_stage NodeStage.upgrading) (λ np. refl)
        (stage_times NodeStage.upgrading) t)

  pub skip_upgraded-Tracked :
      (S : Semver) (target : String) (ng : NodeGroupUpgrade) (batch : List Node)
      (progress : List NodeProgress)
      → Tracked scaled spec progress ng.status.upgraded_nodes
      → TrackedSkip scaled spec ng (skip_upgraded S target batch progress)
  unfolding skip_upgraded
  skip_upgraded-Tracked S target ng [] progress t = t
  skip_upgraded-Tracked S target ng (node ∷ batch) progress t =
      either (entry progress node.name)
        (at_or_past (compare_versions S node.kubelet_version target))
        (skip_upgraded S target batch progress)
        (skip_upgraded S target batch
          (change_named node.name (with_stage NodeStage.upgraded) progress))
        (skip_upgraded-Tracked S target ng batch progress t)
        (skip_upgraded-Tracked S target ng batch _ (
          Tracked-change node.name (with_stage NodeStage.upgraded) (λ np. refl)
            (stage_times NodeStage.upgraded) t))
    where
      either :
          (found : Option NodeProgress) (past : Bool)
          (kept skipped : List Node × List NodeProgress × Bool)
          → TrackedSkip scaled spec ng kept
          → TrackedSkip scaled spec ng skipped
          → TrackedSkip scaled spec ng (elim found [
            | none ↦ (node ∷ kept.0, kept.1, kept.2)
            | some np ↦
                if past then (skipped.0, skipped.1, true) else (node ∷ kept.0, kept.1, kept.2)
          ])
      either none past kept skipped k s = k
      either (some np) true kept skipped k s = s
      either (some np) false kept skipped k s = k
