-- ===== src/NodeGroup/Stored.antt =====
-- The statuses that a node group can come to have, by reconciles against any behaviour of the
-- cluster and by edits of its spec.
use mathlib.Core.List.{Memᴰ}
use kubernetes_upgrade_opera.Base.{pos, int32, ℤ, ◌≤ℤ◌, ◌≡◌, true, [], All, All-at, length, sym, ap}
use kubernetes_upgrade_opera.Result.{ok}
use kubernetes_upgrade_opera.Batches.{Scaled, resolve_concurrency}
use kubernetes_upgrade_opera.Types.{GroupPhase, NodeGroupUpgrade, NodeGroupUpgradeSpec}
use kubernetes_upgrade_opera.Version.{Semver}
use kubernetes_upgrade_opera.Adapter.{Registry}
use kubernetes_upgrade_opera.Adapter.Quiet.{AllQuiet}
use kubernetes_upgrade_opera.Cluster.{Env, update_status}
use kubernetes_upgrade_opera.NodeGroup.Progress.Changes.{entry_names, Distinct}
use kubernetes_upgrade_opera.NodeGroup.Progress.Counts.{is_completed, active_count, completed_count}
use kubernetes_upgrade_opera.NodeGroup.Invariant.{
  Tracked, has_begun, Inv, fresh, waiting, underway, Writes,
}
use kubernetes_upgrade_opera.NodeGroup.Reconcile.{reconcile}
use kubernetes_upgrade_opera.NodeGroup.Reconcile.Keeps.{reconcile-Writes}

-- An edit that leaves the nodes and the concurrency fields; the target version, the pause, the hold
-- and the rest may change.
pub record SameBatches (before after : NodeGroupUpgradeSpec) : Type 0 where
  pub nodes : after.nodes ≡ before.nodes
  pub batch_size : after.batch_size ≡ before.batch_size
  pub max_unavailable : after.max_unavailable ≡ before.max_unavailable

-- A stored group: created without a status, edited, or written by any reconcile of a stored one.
pub data Stored (S : Semver) (scaled : Scaled) (adapters : Registry)
    : NodeGroupUpgrade → Type 1 where
  created :
      (ng : NodeGroupUpgrade)
      → Distinct ng.spec.nodes
      → ng.status.phase ≡ GroupPhase.unset
      → ng.status.upgraded_nodes ≡ pos 0
      → Stored S scaled adapters ng
  edited :
      (ng : NodeGroupUpgrade) (spec : NodeGroupUpgradeSpec)
      → Stored S scaled adapters ng
      → SameBatches ng.spec spec
      → Stored S scaled adapters (record ng { spec = spec })
  reconciled :
      (env : Env) (ng ng' : NodeGroupUpgrade)
      → Stored S scaled adapters ng
      → env.scaled ≡ scaled
      → Memᴰ (update_status ng') (reconcile S env adapters ng []).1
      → Stored S scaled adapters ng'

edited-Inv :
    (scaled : Scaled) (ng : NodeGroupUpgrade) (spec : NodeGroupUpgradeSpec)
    → SameBatches ng.spec spec
    → Inv scaled ng
    → Inv scaled (record ng { spec = spec })
edited-Inv scaled ng spec same (fresh e z) = fresh e z
edited-Inv scaled ng spec same (waiting e z) = waiting e z
edited-Inv scaled ng spec same (underway t b c) =
    underway
      (record {
        named = rw same.nodes t.named;
        within = rw (same.nodes, same.batch_size, same.max_unavailable) t.within;
        counted = t.counted;
      })
      b c

module _ (S : Semver) (scaled : Scaled) (adapters : Registry) where
  pub Stored-Inv :
      (quiet : (spec : NodeGroupUpgradeSpec) → AllQuiet (Writes scaled spec) adapters)
      (ng : NodeGroupUpgrade)
      → Stored S scaled adapters ng
      → Distinct ng.spec.nodes × Inv scaled ng
  Stored-Inv quiet _ (created ng d e z) = (d, fresh e z)
  Stored-Inv quiet _ (edited before spec s same) =
      let (d, i) = Stored-Inv quiet before s in
      (rw same.nodes d, edited-Inv scaled before spec same i)
  Stored-Inv quiet _ (reconciled env before ng s same m) =
      let (d, i) = Stored-Inv quiet before s in
      let all =
        (reconcile-Writes S env adapters before (rw same (quiet before.spec)) d (rw same i)).at []
          tt in
      let (same_spec, after) = All-at (Writes env.scaled before.spec) _ all.0 m in
      (rw same_spec d, rw (sym same) after)

-- The progress of a group that has begun.
begun-Tracked :
    (scaled : Scaled) (ng : NodeGroupUpgrade)
    → Inv scaled ng
    → has_begun ng.status.phase ≡ true
    → Tracked scaled ng.spec ng.status.node_progress ng.status.upgraded_nodes
begun-Tracked scaled ng (fresh e z) b = absurd (cc (rw e at b))
begun-Tracked scaled ng (waiting e z) b = absurd (cc (rw e at b))
begun-Tracked scaled ng (underway t begun c) b = t

complete-All :
    (scaled : Scaled) (ng : NodeGroupUpgrade)
    → Inv scaled ng
    → ng.status.phase ≡ GroupPhase.complete
    → All (λ np. is_completed np ≡ true) ng.status.node_progress
complete-All scaled ng (fresh f z) e = absurd (cc (rw f at e))
complete-All scaled ng (waiting f z) e = absurd (cc (rw f at e))
complete-All scaled ng (underway t begun c) e = c e

module _ (S : Semver) (scaled : Scaled) (adapters : Registry)
    (quiet : (spec : NodeGroupUpgradeSpec) → AllQuiet (Writes scaled spec) adapters)
    (ng : NodeGroupUpgrade) (stored : Stored S scaled adapters ng) where
  -- Let no adapter write a status that breaks the invariant. In every status that a group of distinct
  -- nodes can come to have, from an empty one, by reconciles against any cluster and by edits that keep the nodes and
  -- the concurrency fields, and once its progress is listed: the number of nodes that are started and
  -- not completed is at most the concurrency that resolveConcurrency gives, where it gives one.
  pub Stored-limit :
      (limit : ℤ)
      → has_begun ng.status.phase ≡ true
      → resolve_concurrency scaled
          (pos (length ng.spec.nodes))
          ng.spec.batch_size
          ng.spec.max_unavailable
        ≡ ok limit
      → pos (active_count ng.status.node_progress) ≤ℤ limit
  Stored-limit limit begun e =
      (begun-Tracked scaled ng (Stored-Inv S scaled adapters quiet ng stored).1 begun).within limit
        e

  -- Let no adapter write a status that breaks the invariant. In every status that a group of distinct
  -- nodes can come to have, from an empty one, by reconciles against any cluster and by edits that keep the nodes and
  -- the concurrency fields: a group that is Complete has exactly one entry for each node of the
  -- spec, in order, and every entry has a completion time.
  pub Stored-complete :
      ng.status.phase ≡ GroupPhase.complete
      → (entry_names ng.status.node_progress ≡ ng.spec.nodes)
        × All (λ np. is_completed np ≡ true) ng.status.node_progress
  Stored-complete e =
      let i = (Stored-Inv S scaled adapters quiet ng stored).1 in
      ((begun-Tracked scaled ng i (ap has_begun e)).named, complete-All scaled ng i e)

  -- Let no adapter write a status that breaks the invariant. In every status that a group of distinct
  -- nodes can come to have, from an empty one, by reconciles against any cluster and by edits that keep the nodes and
  -- the concurrency fields, and once its progress is listed: status.upgradedNodes is the number of
  -- entries with a completion time, as an int32.
  pub Stored-counted :
      has_begun ng.status.phase ≡ true
      → ng.status.upgraded_nodes ≡ int32 (pos (completed_count ng.status.node_progress))
  Stored-counted begun =
      (begun-Tracked scaled ng (Stored-Inv S scaled adapters quiet ng stored).1 begun).counted
