-- ===== src/NodeGroup/Verifying.antt =====
-- nodegroupupgrade_verifying.go: letting an upgraded batch back into service.
pub mod Keeps
pub mod Waits
use kubernetes_upgrade_opera.Base.{
  ℕ, suc, ℤ, pos, ◌+ℤ◌, int32, String, Bool, true, false, not, Option, none, some, List, [], ◌∷◌,
  if◌then◌else◌,
}
use kubernetes_upgrade_opera.Result.{Error, Result, ok, err}
use kubernetes_upgrade_opera.Core.{Time, Node}
use kubernetes_upgrade_opera.Types.{
  GroupPhase, NodeStage, NodeProgress, NodeGroupUpgrade, no_adapter,
}
use kubernetes_upgrade_opera.Version.{Semver}
use kubernetes_upgrade_opera.NodeState.{fetch_node, is_node_ready, node_is_at_version, uncordon}
use kubernetes_upgrade_opera.Cluster.{
  Env, Run, pure, lift, attempt, in_context, write_status, now, note, adapter_verify, ◌>>=◌, ◌>>◌,
}
use kubernetes_upgrade_opera.Adapter.{Adapter, Registry, get_adapter}
use kubernetes_upgrade_opera.NodeGroup.Progress.{
  active_batch, change_named, with_progress, with_phase, with_message,
}
use kubernetes_upgrade_opera.NodeGroup.Progress.Completion.{completed}
use kubernetes_upgrade_opera.NodeGroup.Draining.{Outcome, done, requeue, requeue_after}
use kubernetes_upgrade_opera.NodeGroup.Upgrading.{handle_adapter_error}

-- the two assignments of the last loop
abbrev pub marked_complete : Time → String → NodeGroupUpgrade → NodeGroupUpgrade
marked_complete t name ng = record ng {
  status = record ng.status {
    node_progress = change_named name (completed t) ng.status.node_progress;
    upgraded_nodes = int32 (ng.status.upgraded_nodes +ℤ pos 1);
  };
}

module _ (S : Semver) (env : Env) where
  -- one node, once it is fetched: whether it is Ready and at the target version
  unfoldable pub check_node : String → Node → Run Bool
  check_node target node =
      if is_node_ready node
      then in_context "checking version" (lift (node_is_at_version S node target))
      else pure false

  -- the first loop: `false` where it returns to wait for a node
  unfoldable pub all_at_target : String → List String → Run Bool
  unfolding check_node
  all_at_target target [] = pure true
  all_at_target target (name ∷ active) = do
    node ← fetch_node env name
    fine ← check_node target node
    let rest = all_at_target target active
    if fine then rest else pure false

  -- the last loop
  unfoldable pub complete_all : Time → List String → NodeGroupUpgrade → Run NodeGroupUpgrade
  complete_all t [] ng = pure ng
  complete_all t (name ∷ active) ng = do
    in_context "uncordon node" (uncordon env name)
    complete_all t active (marked_complete t name ng)

  after_verify : NodeGroupUpgrade → List String → Result (Bool × String) → Run Outcome
  unfolding complete_all
  after_verify ng active (err e) = handle_adapter_error env ng "Verify" e
  after_verify ng active (ok (false, reason)) = pure (requeue_after 15)
  after_verify ng active (ok (true, reason)) = do
    t ← now env
    ng' ← complete_all t active ng
    write_status env (with_phase ng' GroupPhase.draining)
    pure requeue

  verify_with : NodeGroupUpgrade → List String → Option Adapter → Run Outcome
  unfolding after_verify
  verify_with ng active none = do
    write_status env (with_message (with_phase ng GroupPhase.failed) (no_adapter ng.spec.provider))
    pure done
  verify_with ng active (some adapter) = do
    note adapter_verify
    verified ← attempt (adapter.verify ng)
    after_verify ng active verified

  after_checks : Registry → NodeGroupUpgrade → List String → Bool → Run Outcome
  unfolding verify_with get_adapter
  after_checks adapters ng active false = pure (requeue_after 15)
  after_checks adapters ng active true =
      verify_with ng active (get_adapter adapters ng.spec.provider)

  verify_active : Registry → NodeGroupUpgrade → List String → Run Outcome
  unfolding all_at_target after_checks
  verify_active adapters ng [] = do
    write_status env (with_phase ng GroupPhase.draining)
    pure requeue
  verify_active adapters ng (n ∷ active) = do
    fine ← all_at_target ng.spec.target_version (n ∷ active)
    after_checks adapters ng (n ∷ active) fine

  unfoldable pub reconcile_verifying : Registry → NodeGroupUpgrade → Run Outcome
  unfolding verify_active active_batch
  reconcile_verifying adapters ng = verify_active adapters ng (active_batch ng.status.node_progress)
