-- ===== src/NodeGroup/Reconcile/Stuck.antt =====
-- Reconciles of a group in Verifying whose first active node is past the target version.
use mathlib.Core.List.{Memᴰ}
use kubernetes_upgrade_opera.Base.{
  String, Bool, true, false, List, [], ◌∷◌, ◌≡◌, refl, Ordering, All-at,
}
use kubernetes_upgrade_opera.Core.{Node}
use kubernetes_upgrade_opera.Types.{GroupPhase, NodeGroupUpgradeSpec, NodeGroupUpgrade}
use kubernetes_upgrade_opera.Version.{Semver, Reads}
use kubernetes_upgrade_opera.Adapter.{Registry}
use kubernetes_upgrade_opera.Cluster.{Call, Env, History, found, get_node, update_status}
use kubernetes_upgrade_opera.Cluster.Rules.{
  Any, Ensures, Ensures-pure, Ensures-if, Ensures-bind, Ensures-write_status,
}
use kubernetes_upgrade_opera.NodeGroup.Progress.{active_batch}
use kubernetes_upgrade_opera.NodeGroup.Draining.{done}
use kubernetes_upgrade_opera.NodeGroup.Verifying.{reconcile_verifying}
use kubernetes_upgrade_opera.NodeGroup.Verifying.Waits.{reconcile_verifying-past}
use kubernetes_upgrade_opera.NodeGroup.Reconcile.{
  needs_reset, by_phase, set_conditions, write_condition, unless_held, reconcile,
}

-- The group verifies a batch, and the name is the first in it.
pub record Verifies (name : String) (target : String) (ng : NodeGroupUpgrade) : Type 0 where
  pub verifying : ng.status.phase ≡ GroupPhase.verifying
  pub towards : ng.spec.target_version ≡ target
  pub active : List String
  pub batch : active_batch ng.status.node_progress ≡ name ∷ active

-- Whenever the node is read, it is there with a version past the target's.
abbrev pub IsPast : (S : Semver) → S.Version → Env → String → Type 0
IsPast S v env name =
    (h : History)
    → (node : Node) × (u : S.Version) × (env.node_at h name ≡ found node)
      × Reads S node.kubelet_version u
      × (S.compare u v ≡ Ordering.gt)

-- The calls of such a reconcile: reads of the node, and writes after which the group still verifies.
abbrev pub OnlyWaits : String → String → Call → Type 0
OnlyWaits name target (get_node asked) = asked ≡ name
OnlyWaits name target (update_status ng) = Verifies name target ng
OnlyWaits name target _ = ⊥

no_reset : (ng : NodeGroupUpgrade) → ng.status.phase ≡ GroupPhase.verifying → needs_reset ng ≡ false
unfolding needs_reset
no_reset ng e = rw e refl

module _ (S : Semver) (env : Env) (adapters : Registry) (name target : String) (v : S.Version)
    (q : Reads S target v) (past : IsPast S v env name) where
  waits :
      (ng : NodeGroupUpgrade)
      → Verifies name target ng
      → Ensures (OnlyWaits name target) (reconcile_verifying S env adapters ng) Any
  waits ng verifies = record {
    at = λ h all.
        let (node, u, there, reads, gt) = past h in
        rw
          (reconcile_verifying-past env adapters ng node reads (rw verifies.towards q) gt name
            verifies.active h verifies.batch there)
          ((refl, all), tt);
  }

  in_phase :
      (phase : GroupPhase) (ng : NodeGroupUpgrade)
      → phase ≡ GroupPhase.verifying
      → Verifies name target ng
      → Ensures (OnlyWaits name target) (by_phase S env adapters phase ng) Any
  unfolding by_phase
  in_phase phase ng e verifies = rw e (waits ng verifies)

  unless_held-OnlyWaits :
      (ng : NodeGroupUpgrade)
      → Verifies name target ng
      → Ensures (OnlyWaits name target) (unless_held S env adapters ng) Any
  unfolding unless_held
  unless_held-OnlyWaits ng verifies = Ensures-if ng.spec.paused _ _ (Ensures-pure done tt) (
      Ensures-if ng.spec.hold _ _ (Ensures-pure done tt) (
        rw (no_reset ng verifies.verifying)
          (in_phase ng.status.phase ng verifies.verifying verifies)))

  write_condition-OnlyWaits :
      (b : Bool) (ng : NodeGroupUpgrade)
      → Verifies name target ng
      → Ensures
          (OnlyWaits name target)
          (write_condition S env adapters b (set_conditions S env adapters ng))
          Any
  unfolding write_condition set_conditions
  write_condition-OnlyWaits true ng k =
      Ensures-write_status env _ (record {
        verifying = k.verifying;
        towards = k.towards;
        active = k.active;
        batch = k.batch;
      })
  write_condition-OnlyWaits false ng k = Ensures-pure _ tt

  reconcile-OnlyWaits :
      (ng : NodeGroupUpgrade)
      → Verifies name target ng
      → Ensures (OnlyWaits name target) (reconcile S env adapters ng) Any
  unfolding reconcile set_conditions
  reconcile-OnlyWaits ng k = Ensures-bind _ _ (write_condition-OnlyWaits _ ng k) (λ _ _.
      unless_held-OnlyWaits (set_conditions S env adapters ng) (record {
        verifying = k.verifying;
        towards = k.towards;
        active = k.active;
        batch = k.batch;
      }))

-- The states that a group comes to from one that verifies, by reconciles against any cluster in which
-- the node is past the target, and by edits of the spec that keep the target.
pub data Later (S : Semver) (name target : String) (v : S.Version) : NodeGroupUpgrade → Type 1 where
  from : (ng : NodeGroupUpgrade) → Verifies name target ng → Later S name target v ng
  edited :
      (ng : NodeGroupUpgrade) (spec : NodeGroupUpgradeSpec)
      → Later S name target v ng
      → spec.target_version ≡ target
      → Later S name target v (record ng { spec = spec })
  reconciled :
      (env : Env) (adapters : Registry) (ng ng' : NodeGroupUpgrade)
      → Later S name target v ng
      → IsPast S v env name
      → Memᴰ (update_status ng') (reconcile S env adapters ng []).1
      → Later S name target v ng'

-- Let the target be read. A group in Verifying whose first active node is found past the target, at
-- a version that is read, whenever it is read, stays in Verifying with that node first, whatever
-- reconciles store, and however the rest of the spec is edited, a pause or a hold among it.
pub Later-Verifies :
    (S : Semver) (name target : String) (v : S.Version) (q : Reads S target v)
    (ng : NodeGroupUpgrade)
    → Later S name target v ng
    → Verifies name target ng
Later-Verifies S name target v q ng (from _ k) = k
Later-Verifies S name target v q _ (edited before spec l same) =
    let k = Later-Verifies S name target v q before l in
    record { verifying = k.verifying; towards = same; active = k.active; batch = k.batch }
Later-Verifies S name target v q ng (reconciled env adapters before _ l past m) =
    let k = Later-Verifies S name target v q before l in
    let calls = (reconcile-OnlyWaits S env adapters name target v q past before k).at [] tt in
    All-at (OnlyWaits name target) _ calls.0 m
