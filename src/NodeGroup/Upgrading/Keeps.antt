-- ===== src/NodeGroup/Upgrading/Keeps.antt =====
-- reconcileUpgrading of nodegroupupgrade_upgrading.go and the invariant of a group.
use kubernetes_upgrade_opera.Base.{
  String, refl, Bool, true, false, Option, none, some, List, [], ◌∷◌,
}
use kubernetes_upgrade_opera.Result.{Error, Result, ok, err, is_not_implemented}
use kubernetes_upgrade_opera.Core.{Node}
use kubernetes_upgrade_opera.Batches.{Scaled}
use kubernetes_upgrade_opera.Types.{
  GroupPhase, NodeProgress, NodeGroupUpgrade, NodeGroupUpgradeSpec, Message,
}
use kubernetes_upgrade_opera.Version.{Semver}
use kubernetes_upgrade_opera.Adapter.{NodeResult, Adapter, Registry, get_adapter}
use kubernetes_upgrade_opera.Adapter.Quiet.{Quiet, QuietIf, AllQuiet, get_adapter-Quiet}
use kubernetes_upgrade_opera.Cluster.{
  Env, adapter_precheck, adapter_begin, adapter_poll, record_event,
}
use kubernetes_upgrade_opera.Cluster.Rules.{
  Any, Ensures, Ensures-pure, Ensures-attempt, Ensures-in_context, Ensures-bind, Ensures-note,
  Ensures-read_node, Ensures-write_status,
}
use kubernetes_upgrade_opera.NodeGroup.Progress.{
  active_batch, needs_begin, with_progress, with_phase, with_message,
}
use kubernetes_upgrade_opera.NodeGroup.Invariant.{
  Tracked, Writes, Running, Running-Writes, Running-phase,
}
use kubernetes_upgrade_opera.NodeGroup.Upgrading.{
  names, adapter_error, handle_adapter_error, active_batch_nodes, skip_upgraded, mark_upgrading,
  Polled, node_failure, polled, take_results, finish_poll, after_poll, poll, after_begin,
  begin_if_needed, write_if, after_skip, after_precheck, with_adapter, upgrade_active,
  reconcile_upgrading,
}
use kubernetes_upgrade_opera.NodeGroup.Upgrading.Progress.{
  RunningPolled, take_results-Running, mark_upgrading-Tracked, skip_upgraded-Tracked,
}

module _ {scaled : Scaled} {spec : NodeGroupUpgradeSpec} (env : Env) where
  adapter_error-Writes :
      (ng : NodeGroupUpgrade) (step : String) (e : Error) (missing : Bool)
      → Running scaled spec ng
      → Ensures (Writes scaled spec) (adapter_error env ng step e missing) Any
  unfolding adapter_error
  adapter_error-Writes ng step e true r =
      Ensures-bind _ _ (Ensures-note (record_event "ProviderNotImplemented") tt) (λ _ _.
        Ensures-bind _ _ (Ensures-write_status env _ (Running-Writes (stopped r)))
          (λ _ _. Ensures-pure _ tt))
    where
      stopped :
          {ng : NodeGroupUpgrade} {m : Message}
          → Running scaled spec ng
          → Running scaled spec (with_message (with_phase ng GroupPhase.paused) m)
      stopped r = record { same_spec = r.same_spec; tracked = r.tracked; unfinished = refl }
  adapter_error-Writes ng step e false r =
      Ensures-bind _ _
        (Ensures-write_status env _ (
          Running-Writes
            (record { same_spec = r.same_spec; tracked = r.tracked; unfinished = refl })))
        (λ _ _. Ensures-pure _ tt)

  pub handle_adapter_error-Writes :
      (ng : NodeGroupUpgrade) (step : String) (e : Error)
      → Running scaled spec ng
      → Ensures (Writes scaled spec) (handle_adapter_error env ng step e) Any
  unfolding handle_adapter_error
  handle_adapter_error-Writes ng step e r = adapter_error-Writes ng step e (is_not_implemented e) r

  active_batch_nodes-Writes :
      (active : List String) → Ensures (Writes scaled spec) (active_batch_nodes env active) Any
  unfolding active_batch_nodes
  active_batch_nodes-Writes [] = Ensures-pure _ tt
  active_batch_nodes-Writes (name ∷ active) =
      Ensures-bind _ _ (Ensures-in_context _ _ (Ensures-read_node env name tt)) (λ node _.
        Ensures-bind _ _ (active_batch_nodes-Writes active) (λ nodes _. Ensures-pure _ tt))

  finish_poll-Writes :
      (out : Polled)
      → RunningPolled scaled spec out
      → Ensures (Writes scaled spec) (finish_poll env out) Any
  unfolding finish_poll
  finish_poll-Writes (node_failure ng) r =
      Ensures-bind _ _ (Ensures-write_status env ng (Running-Writes r)) (λ _ _. Ensures-pure _ tt)
  finish_poll-Writes (polled ng false) r =
      Ensures-bind _ _ (Ensures-write_status env ng (Running-Writes r)) (λ _ _. Ensures-pure _ tt)
  finish_poll-Writes (polled ng true) r =
      Ensures-bind _ _
        (Ensures-write_status env _ (Running-Writes (Running-phase GroupPhase.verifying refl r)))
        (λ _ _. Ensures-pure _ tt)

  after_poll-Writes :
      (ng : NodeGroupUpgrade) (results : Result (List NodeResult))
      → Running scaled spec ng
      → Ensures (Writes scaled spec) (after_poll env ng results) Any
  unfolding after_poll
  after_poll-Writes ng (ok results) r =
      finish_poll-Writes (take_results ng true results) (take_results-Running ng true results r)
  after_poll-Writes ng (err e) r = handle_adapter_error-Writes ng "PollBatch" e r

  module _ (adapter : Adapter) (quiet : Quiet (Writes scaled spec) adapter) where
    poll-Writes :
        (ng : NodeGroupUpgrade) (batch : List Node)
        → Running scaled spec ng
        → Ensures (Writes scaled spec) (poll env adapter ng batch) Any
    unfolding poll
    poll-Writes ng batch r = Ensures-bind _ _ (Ensures-note (adapter_poll (names batch)) tt) (λ _ _.
        Ensures-bind _ _ (Ensures-attempt _ (quiet.poll_batch ng batch))
          (λ results _. after_poll-Writes ng results r))

    after_begin-Writes :
        (ng : NodeGroupUpgrade) (batch : List Node) (begun : Result (Unit {0}))
        → Running scaled spec ng
        → Ensures (Writes scaled spec) (after_begin env adapter ng batch begun) Any
    unfolding after_begin
    after_begin-Writes ng batch (ok u) r =
        let r' = marked in
        Ensures-bind _ _ (Ensures-write_status env _ (Running-Writes r'))
          (λ _ _. poll-Writes _ batch r')
      where
        marked :
            Running scaled spec (with_progress ng (mark_upgrading batch ng.status.node_progress))
        marked = record {
          same_spec = r.same_spec;
          tracked = mark_upgrading-Tracked ng batch ng.status.node_progress r.tracked;
          unfinished = r.unfinished;
        }
    after_begin-Writes ng batch (err e) r = handle_adapter_error-Writes ng "BeginBatch" e r

    begin_if_needed-Writes :
        (ng : NodeGroupUpgrade) (batch : List Node) (needed : Bool)
        → Running scaled spec ng
        → Ensures (Writes scaled spec) (begin_if_needed env adapter ng batch needed) Any
    unfolding begin_if_needed
    begin_if_needed-Writes ng batch false r = poll-Writes ng batch r
    begin_if_needed-Writes ng batch true r =
        Ensures-bind _ _ (Ensures-note (adapter_begin (names batch)) tt) (λ _ _.
          Ensures-bind _ _ (Ensures-attempt _ (quiet.begin_batch ng batch))
            (λ begun _. after_begin-Writes ng batch begun r))

  write_if-Writes :
      (b : Bool) (ng : NodeGroupUpgrade)
      → Running scaled spec ng
      → Ensures (Writes scaled spec) (write_if env b ng) Any
  unfolding write_if
  write_if-Writes false ng r = Ensures-pure _ tt
  write_if-Writes true ng r = Ensures-write_status env ng (Running-Writes r)

module _ {scaled : Scaled} {spec : NodeGroupUpgradeSpec} (S : Semver) (env : Env) where
  module _ (adapter : Adapter) (quiet : Quiet (Writes scaled spec) adapter) where
    after_skip-Writes :
        (ng : NodeGroupUpgrade) (active : List String) (left : List Node × List NodeProgress × Bool)
        → Running scaled spec ng
        → Tracked scaled spec left.1 ng.status.upgraded_nodes
        → Ensures (Writes scaled spec) (after_skip S env adapter ng active left) Any
    unfolding after_skip
    after_skip-Writes ng active (batch, progress, changed) r t =
        Ensures-bind _ _ (write_if-Writes env changed _ skipped) (λ _ _.
          begin_if_needed-Writes env adapter quiet _ batch (needs_begin progress active) skipped)
      where
        skipped : Running scaled spec (with_progress ng progress)
        skipped = record { same_spec = r.same_spec; tracked = t; unfinished = r.unfinished }

    after_precheck-Writes :
        (ng : NodeGroupUpgrade) (active : List String) (ready : Result (Bool × String))
        → Running scaled spec ng
        → Ensures (Writes scaled spec) (after_precheck S env adapter ng active ready) Any
    unfolding after_precheck
    after_precheck-Writes ng active (err e) r = handle_adapter_error-Writes env ng "Precheck" e r
    after_precheck-Writes ng active (ok (false, reason)) r = Ensures-pure _ tt
    after_precheck-Writes ng active (ok (true, reason)) r =
        Ensures-bind _ _ (active_batch_nodes-Writes env active) (λ batch _.
          after_skip-Writes ng active
            (skip_upgraded S ng.spec.target_version batch ng.status.node_progress) r
            (skip_upgraded-Tracked S ng.spec.target_version ng batch ng.status.node_progress
              r.tracked))

  with_adapter-Writes :
      (ng : NodeGroupUpgrade) (active : List String) (found : Option Adapter)
      → QuietIf (Writes scaled spec) found
      → Running scaled spec ng
      → Ensures (Writes scaled spec) (with_adapter S env ng active found) Any
  unfolding with_adapter
  with_adapter-Writes ng active none quiet r =
      Ensures-bind _ _
        (Ensures-write_status env _ (
          Running-Writes
            (record { same_spec = r.same_spec; tracked = r.tracked; unfinished = refl })))
        (λ _ _. Ensures-pure _ tt)
  with_adapter-Writes ng active (some adapter) quiet r =
      Ensures-bind _ _ (Ensures-note adapter_precheck tt) (λ _ _.
        Ensures-bind _ _ (Ensures-attempt _ (quiet.precheck ng))
          (λ ready _. after_precheck-Writes adapter quiet ng active ready r))

  module _ (adapters : Registry) (quiet : AllQuiet (Writes scaled spec) adapters) where
    upgrade_active-Writes :
        (ng : NodeGroupUpgrade) (active : List String)
        → Running scaled spec ng
        → Ensures (Writes scaled spec) (upgrade_active S env adapters ng active) Any
    unfolding upgrade_active
    upgrade_active-Writes ng [] r =
        Ensures-bind _ _
          (Ensures-write_status env _ (Running-Writes (Running-phase GroupPhase.draining refl r)))
          (λ _ _. Ensures-pure _ tt)
    upgrade_active-Writes ng (n ∷ active) r =
        with_adapter-Writes ng (n ∷ active) (get_adapter adapters ng.spec.provider)
          (get_adapter-Quiet (Writes scaled spec) adapters ng.spec.provider quiet) r

    pub reconcile_upgrading-Writes :
        (ng : NodeGroupUpgrade)
        → Running scaled spec ng
        → Ensures (Writes scaled spec) (reconcile_upgrading S env adapters ng) Any
    unfolding reconcile_upgrading
    reconcile_upgrading-Writes ng r =
        upgrade_active-Writes ng (active_batch ng.status.node_progress) r
