-- ===== src/NodeGroup/Invariant.antt =====
-- What holds of a stored NodeGroupUpgrade between two reconciles.
use kubernetes_upgrade_opera.Base.{
  ℕ, ℤ, pos, int32, ◌≤ℤ◌, String, ◌≡◌, refl, Bool, true, false, List, All, length, arith, ◌∙◌,
}
use kubernetes_upgrade_opera.Result.{ok}
use kubernetes_upgrade_opera.Batches.{Scaled, resolve_concurrency}
use kubernetes_upgrade_opera.Types.{
  GroupPhase, NodeStage, NodeProgress, NodeGroupUpgrade, NodeGroupUpgradeSpec,
}
use kubernetes_upgrade_opera.Cluster.{Call, update_status}
use kubernetes_upgrade_opera.NodeGroup.Progress.{change_named, is_active, with_stage, with_phase}
use kubernetes_upgrade_opera.NodeGroup.Progress.Changes.{entry_names, entry_names-change_named}
use kubernetes_upgrade_opera.NodeGroup.Progress.Counts.{
  is_completed, active_count, completed_count, KeepsTimes, active_count-keep, completed_count-keep,
}

-- The number of active nodes keeps the group's concurrency limit, where the limit can be resolved.
abbrev pub Within : Scaled → NodeGroupUpgradeSpec → ℕ → Type 0
Within scaled spec n =
    (limit : ℤ)
    → resolve_concurrency scaled (pos (length spec.nodes)) spec.batch_size spec.max_unavailable
      ≡ ok limit
    → pos n ≤ℤ limit

-- The progress has one entry for each node of the spec, in order, the active ones keep the limit,
-- and `upgradedNodes` counts the completed ones.
pub record Tracked (scaled : Scaled) (spec : NodeGroupUpgradeSpec) (progress : List NodeProgress)
    (upgraded : ℤ) : Type 0 where
  pub named : entry_names progress ≡ spec.nodes
  pub within : Within scaled spec (active_count progress)
  pub counted : upgraded ≡ int32 (pos (completed_count progress))

-- The phases of a group whose nodes are listed in its progress.
abbrev pub has_begun : GroupPhase → Bool
has_begun GroupPhase.unset = false
has_begun GroupPhase.pending = false
has_begun _ = true

-- Those but Complete.
abbrev pub midway : GroupPhase → Bool
midway GroupPhase.unset = false
midway GroupPhase.pending = false
midway GroupPhase.complete = false
midway _ = true

-- Not begun, or begun and tracked; and a Complete group has every entry completed.
pub data Inv (scaled : Scaled) (ng : NodeGroupUpgrade) : Type 0 where
  fresh : ng.status.phase ≡ GroupPhase.unset → ng.status.upgraded_nodes ≡ pos 0 → Inv scaled ng
  waiting : ng.status.phase ≡ GroupPhase.pending → ng.status.upgraded_nodes ≡ pos 0 → Inv scaled ng
  underway :
      Tracked scaled ng.spec ng.status.node_progress ng.status.upgraded_nodes
      → has_begun ng.status.phase ≡ true
      → (ng.status.phase ≡ GroupPhase.complete
          → All (λ np. is_completed np ≡ true) ng.status.node_progress)
      → Inv scaled ng

-- Every status that is written keeps the spec and satisfies the invariant.
abbrev pub Writes : Scaled → NodeGroupUpgradeSpec → Call → Type 0
Writes scaled spec (update_status ng) = (ng.spec ≡ spec) × Inv scaled ng
Writes scaled spec _ = Unit

-- A group in the middle of its work.
pub record Running (scaled : Scaled) (spec : NodeGroupUpgradeSpec) (ng : NodeGroupUpgrade)
    : Type 0 where
  pub same_spec : ng.spec ≡ spec
  pub tracked : Tracked scaled spec ng.status.node_progress ng.status.upgraded_nodes
  pub unfinished : midway ng.status.phase ≡ true

-- Setting a stage keeps both times.
pub stage_times : (stage : NodeStage) → KeepsTimes (with_stage stage)
unfolding is_completed is_active
stage_times stage np = (ground arith, refl)

midway-begun : (phase : GroupPhase) → midway phase ≡ true → has_begun phase ≡ true
midway-begun GroupPhase.unset h = h
midway-begun GroupPhase.pending h = h
midway-begun GroupPhase.draining h = refl
midway-begun GroupPhase.upgrading h = refl
midway-begun GroupPhase.verifying h = refl
midway-begun GroupPhase.complete h = refl
midway-begun GroupPhase.failed h = refl
midway-begun GroupPhase.paused h = refl
midway-begun (GroupPhase.other_phase p) h = refl

complete-midway : (phase : GroupPhase) → phase ≡ GroupPhase.complete → ¬ (midway phase ≡ true)
complete-midway phase e h = cc (rw e at h)

module _ {scaled : Scaled} {spec : NodeGroupUpgradeSpec} where
  -- A running group may be written, in any phase but Complete.
  pub Running-Writes :
      {ng : NodeGroupUpgrade} → Running scaled spec ng → Writes scaled spec (update_status ng)
  Running-Writes {ng} r = (
    r.same_spec,
    underway (rw r.same_spec r.tracked) (midway-begun _ r.unfinished)
        (λ e. absurd (complete-midway _ e r.unfinished)),
  )

  -- A change of one entry that keeps its name and its times keeps the group tracked.
  pub Tracked-change :
      (name : String) (f : NodeProgress → NodeProgress) {progress : List NodeProgress}
      {upgraded : ℤ}
      → ((np : NodeProgress) → (f np).name ≡ np.name)
      → KeepsTimes f
      → Tracked scaled spec progress upgraded
      → Tracked scaled spec (change_named name f progress) upgraded
  Tracked-change name f {progress} same keep t = record {
    named = entry_names-change_named name f progress same ∙ t.named;
    within = rw (active_count-keep name f progress keep) t.within;
    counted = rw (completed_count-keep name f progress (λ np. (keep np).1)) t.counted;
  }

  -- A running group may take any phase but Complete.
  pub Running-phase :
      {ng : NodeGroupUpgrade} (phase : GroupPhase)
      → midway phase ≡ true
      → Running scaled spec ng
      → Running scaled spec (with_phase ng phase)
  Running-phase phase h r = record { same_spec = r.same_spec; tracked = r.tracked; unfinished = h }
