-- ===== src/NodeGroup/Upgrading.antt =====
-- nodegroupupgrade_upgrading.go: running the adapter on a drained batch.
pub mod Progress
pub mod Keeps
use text.Mathlib.Text.{is_lt}
use kubernetes_upgrade_opera.Base.{
  Ordering, String, Bool, true, false, not, Option, none, some, List, [], ◌∷◌, map, if◌then◌else◌,
}
use kubernetes_upgrade_opera.Result.{Error, is_not_implemented, Result, ok, err}
use kubernetes_upgrade_opera.Core.{Node}
use kubernetes_upgrade_opera.Types.{
  GroupPhase, NodeStage, NodeProgress, NodeGroupUpgrade, Message, plain, of_error, no_adapter,
  provider_missing, step_failed, node_failed,
}
use kubernetes_upgrade_opera.Version.{Semver, compare_versions}
use kubernetes_upgrade_opera.Cluster.{
  Env, Run, pure, attempt, in_context, read_node, write_status, note, record_event,
  adapter_precheck, adapter_begin, adapter_poll, ◌>>=◌, ◌>>◌,
}
use kubernetes_upgrade_opera.Adapter.{NodePhase, NodeResult, Adapter, Registry, get_adapter}
use kubernetes_upgrade_opera.NodeGroup.Progress.{
  active_batch, change_named, entry, with_stage, with_progress, with_phase, with_message,
  needs_begin,
}
use kubernetes_upgrade_opera.NodeGroup.Draining.{Outcome, done, requeue, requeue_after}

abbrev pub names : List Node → List String
names [] = []
names (n ∷ ns) = n.name ∷ names ns

module _ (env : Env) where
  -- handleAdapterError; the recorder is taken to be there
  adapter_error : NodeGroupUpgrade → String → Error → Bool → Run Outcome
  adapter_error ng step e true = do
    note (record_event "ProviderNotImplemented")
    write_status env
        (with_message (with_phase ng GroupPhase.paused) (provider_missing step ng.spec.provider))
    pure done
  adapter_error ng step e false = do
    write_status env (with_message (with_phase ng GroupPhase.failed) (step_failed step e))
    pure done

  unfoldable pub handle_adapter_error : NodeGroupUpgrade → String → Error → Run Outcome
  unfolding adapter_error
  handle_adapter_error ng step e = adapter_error ng step e (is_not_implemented e)

  -- activeBatchNodes
  unfoldable pub active_batch_nodes : List String → Run (List Node)
  active_batch_nodes [] = pure []
  active_batch_nodes (name ∷ active) = do
    node ← in_context "getting node" (read_node env name)
    nodes ← active_batch_nodes active
    pure (node ∷ nodes)

-- `cmpErr == nil && cmp >= 0`
abbrev at_or_past : Result Ordering → Bool
at_or_past (ok o) = not (is_lt o)
at_or_past (err e) = false

-- The loop that passes over nodes at or past the target: the nodes that remain, the progress with
-- those others marked Upgraded, and whether any was marked.
unfoldable pub skip_upgraded :
    Semver → String → List Node → List NodeProgress → List Node × List NodeProgress × Bool
unfolding entry
skip_upgraded S target [] progress = ([], progress, false)
skip_upgraded S target (node ∷ batch) progress =
    let kept = skip_upgraded S target batch progress in
    let skipped =
      skip_upgraded S target batch
        (change_named node.name (with_stage NodeStage.upgraded) progress) in
    elim (entry progress node.name) [
      | none ↦ (node ∷ kept.0, kept.1, kept.2)
      | some np ↦
          if at_or_past (compare_versions S node.kubelet_version target)
          then (skipped.0, skipped.1, true)
          else (node ∷ kept.0, kept.1, kept.2)
    ]

unfoldable pub mark_upgrading : List Node → List NodeProgress → List NodeProgress
mark_upgrading [] progress = progress
mark_upgrading (node ∷ batch) progress =
    mark_upgrading batch (change_named node.name (with_stage NodeStage.upgrading) progress)

abbrev failure_text : Option Error → Message
failure_text none = plain "upgrade failed"
failure_text (some e) = of_error e

abbrev failed_entry : Message → NodeProgress → NodeProgress
failed_entry m np = record np { phase = NodeStage.failed; error = m }

-- How the loop over the results ends: at a failed node, or with the progress and `allUpgraded`.
pub data Polled : Type 0 where
  node_failure : NodeGroupUpgrade → Polled
  polled : NodeGroupUpgrade → Bool → Polled

-- one result, for a node that has an entry
take_one : NodeGroupUpgrade → Bool → NodeResult → NodePhase → NodeGroupUpgrade × Bool × Bool
take_one ng all res NodePhase.upgraded = (
  with_progress ng
      (change_named res.node_name (with_stage NodeStage.upgraded) ng.status.node_progress),
  all,
  false,
)
take_one ng all res NodePhase.failed = (
  with_message
      (with_phase
        (with_progress ng (
          change_named res.node_name (failed_entry (failure_text res.error))
            ng.status.node_progress))
        GroupPhase.failed)
      (node_failed res.node_name (failure_text res.error)),
  all,
  true,
)
take_one ng all res NodePhase.in_progress = (ng, false, false)

unfoldable pub take_results : NodeGroupUpgrade → Bool → List NodeResult → Polled
unfolding take_one entry
take_results ng all [] = polled ng all
take_results ng all (res ∷ results) =
    let unknown_node = take_results ng all results in
    let one = take_one ng all res res.phase in
    let rest = take_results one.0 one.1 results in
    elim (entry ng.status.node_progress res.node_name) [
      | none ↦ unknown_node
      | some np ↦ if one.2 then node_failure one.0 else rest
    ]

module _ (env : Env) where
  finish_poll : Polled → Run Outcome
  finish_poll (node_failure ng) = do write_status env ng; pure done
  finish_poll (polled ng false) = do write_status env ng; pure (requeue_after 15)
  finish_poll (polled ng true) = do
    write_status env (with_phase ng GroupPhase.verifying)
    pure requeue

  after_poll : NodeGroupUpgrade → Result (List NodeResult) → Run Outcome
  unfolding handle_adapter_error finish_poll take_results
  after_poll ng (err e) = handle_adapter_error env ng "PollBatch" e
  after_poll ng (ok results) = finish_poll (take_results ng true results)

  poll : Adapter → NodeGroupUpgrade → List Node → Run Outcome
  unfolding after_poll
  poll adapter ng batch = do
    note (adapter_poll (names batch))
    results ← attempt (adapter.poll_batch ng batch)
    after_poll ng results

  after_begin : Adapter → NodeGroupUpgrade → List Node → Result (Unit {0}) → Run Outcome
  unfolding poll mark_upgrading handle_adapter_error
  after_begin adapter ng batch (err e) = handle_adapter_error env ng "BeginBatch" e
  after_begin adapter ng batch (ok _) = do
    let ng' = with_progress ng (mark_upgrading batch ng.status.node_progress)
    write_status env ng'
    poll adapter ng' batch

  begin_if_needed : Adapter → NodeGroupUpgrade → List Node → Bool → Run Outcome
  unfolding after_begin poll
  begin_if_needed adapter ng batch false = poll adapter ng batch
  begin_if_needed adapter ng batch true = do
    note (adapter_begin (names batch))
    begun ← attempt (adapter.begin_batch ng batch)
    after_begin adapter ng batch begun

  write_if : Bool → NodeGroupUpgrade → Run (Unit {0})
  write_if false ng = pure tt
  write_if true ng = write_status env ng

module _ (S : Semver) (env : Env) where
  after_skip :
      Adapter → NodeGroupUpgrade → List String → List Node × List NodeProgress × Bool → Run Outcome
  unfolding write_if begin_if_needed needs_begin
  after_skip adapter ng active (batch, progress, changed) = do
    let ng' = with_progress ng progress
    write_if env changed ng'
    begin_if_needed env adapter ng' batch (needs_begin progress active)

  after_precheck : Adapter → NodeGroupUpgrade → List String → Result (Bool × String) → Run Outcome
  unfolding handle_adapter_error active_batch_nodes after_skip skip_upgraded
  after_precheck adapter ng active (err e) = handle_adapter_error env ng "Precheck" e
  after_precheck adapter ng active (ok (false, reason)) = pure (requeue_after 15)
  after_precheck adapter ng active (ok (true, reason)) = do
    batch ← active_batch_nodes env active
    after_skip adapter ng active
        (skip_upgraded S ng.spec.target_version batch ng.status.node_progress)

  with_adapter : NodeGroupUpgrade → List String → Option Adapter → Run Outcome
  unfolding after_precheck
  with_adapter ng active none = do
    write_status env (with_message (with_phase ng GroupPhase.failed) (no_adapter ng.spec.provider))
    pure done
  with_adapter ng active (some adapter) = do
    note adapter_precheck
    ready ← attempt (adapter.precheck ng)
    after_precheck adapter ng active ready

  upgrade_active : Registry → NodeGroupUpgrade → List String → Run Outcome
  unfolding with_adapter get_adapter
  upgrade_active adapters ng [] = do
    write_status env (with_phase ng GroupPhase.draining)
    pure requeue
  upgrade_active adapters ng (n ∷ active) =
      with_adapter ng (n ∷ active) (get_adapter adapters ng.spec.provider)

  unfoldable pub reconcile_upgrading : Registry → NodeGroupUpgrade → Run Outcome
  unfolding upgrade_active active_batch
  reconcile_upgrading adapters ng =
      upgrade_active adapters ng (active_batch ng.status.node_progress)
