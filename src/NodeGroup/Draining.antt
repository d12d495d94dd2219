-- ===== src/NodeGroup/Draining.antt =====
-- nodegroupupgrade_draining.go: choosing the next batch, and emptying its nodes.
pub mod Batch
pub mod Keeps
use kubernetes_upgrade_opera.Base.{
  ℕ, zero, suc, ◌-◌, ◌*◌, ℤ, pos, negsuc, ◌+ℤ◌, ltb_ℤ, String, Bool, true, false, Option, none,
  some, List, [], ◌∷◌, if◌then◌else◌,
}
use kubernetes_upgrade_opera.Result.{
  Error, wrapped, api, ApiError, not_found, already_exists, conflict, too_many_requests, other,
  Result, ok, err,
}
use kubernetes_upgrade_opera.Core.{Time, is_true, Node}
use kubernetes_upgrade_opera.Types.{
  GroupPhase, NodeStage, NodeProgress, NodeGroupUpgrade, Condition, drain_stuck,
}
use kubernetes_upgrade_opera.Cluster.{
  Env, Run, pure, raise, lift, attempt, in_context, write_status, now, remove_pod, ◌>>=◌, ◌>>◌,
}
use kubernetes_upgrade_opera.NodeState.{fetch_node, cordon}
use kubernetes_upgrade_opera.Drain.{DrainOptions, PodStatus, remaining, blocked_pods, drain_node}
use kubernetes_upgrade_opera.NodeGroup.Progress.{
  active_batch, change_named, entry, with_stage, with_progress, with_phase, next_batch_for,
}

-- ctrl.Result: when the group is reconciled again, the delay in seconds
pub data Outcome : Type 0 where
  done : Outcome
  requeue : Outcome
  requeue_after : ℕ → Outcome

abbrev pub drain_options : NodeGroupUpgrade → DrainOptions
drain_options ng = record {
  grace_period_seconds = ng.spec.drain.grace_period_seconds;
  ignore_daemon_sets = ng.spec.drain.ignore_daemon_sets;
  delete_empty_dir_data = ng.spec.drain.delete_empty_dir_data;
}

-- an int32 number of seconds in nanoseconds
abbrev seconds : ℤ → ℤ
seconds (pos n) = pos (n * 1000000000)
seconds (negsuc n) = negsuc (suc n * 1000000000 - 1)

-- The time that a drain may take: 10 minutes, or what spec.drain.timeoutSeconds says.
abbrev pub drain_timeout : NodeGroupUpgrade → ℤ
drain_timeout ng = elim ng.spec.drain.timeout_seconds [
  | none ↦ seconds (pos 600)
  | some t ↦ seconds t
]

module _ (env : Env) where
  -- what the first loop does to the entry of a node that it starts
  abbrev started : Time → Result Node → NodeProgress → NodeProgress
  started t (ok node) np = record np {
    started_at = some t;
    phase = NodeStage.draining;
    from_version = node.kubelet_version;
  }
  started t (err e) np = record np { started_at = some t; phase = NodeStage.draining }

  -- one round of that loop; a name without an entry is passed over
  start_named : Time → String → List NodeProgress → Option NodeProgress → Run (List NodeProgress)
  start_named t name progress none = pure progress
  start_named t name progress (some np) = do
    node ← attempt (fetch_node env name)
    pure (change_named name (started t node) progress)

  unfoldable pub start_all : Time → List String → List NodeProgress → Run (List NodeProgress)
  unfolding start_named
  start_all t [] progress = pure progress
  start_all t (name ∷ names) progress = do
    progress' ← start_named t name progress (entry progress name)
    start_all t names progress'

  -- `!apierrors.IsNotFound(err)`
  abbrev unless_missing : Option ApiError → Result (Unit {0})
  unless_missing none = ok tt
  unless_missing (some not_found) = ok tt
  unless_missing (some already_exists) = err (wrapped "force-deleting pod" (api already_exists))
  unless_missing (some conflict) = err (wrapped "force-deleting pod" (api conflict))
  unless_missing (some too_many_requests) =
      err (wrapped "force-deleting pod" (api too_many_requests))
  unless_missing (some other) = err (wrapped "force-deleting pod" (api other))

  unfoldable pub force_delete : List PodStatus → Run (Unit {0})
  force_delete [] = pure tt
  force_delete (p ∷ ps) = do
    reply ← remove_pod env p.namespace p.name
    lift (unless_missing reply)
    force_delete ps

  abbrev stuck_condition : NodeGroupUpgrade → String → Condition
  stuck_condition ng name = record {
    kind = "DrainStuck";
    status = is_true;
    reason = "TimeoutExceeded";
    message = drain_stuck name (drain_timeout ng);
  }

  -- handleStuckDrain behind its first guard, for a node that was started at `t0`
  after_timeout : NodeGroupUpgrade → String → List PodStatus → Time → Time → Run NodeGroupUpgrade
  unfolding force_delete
  after_timeout ng name pods t0 t =
      if ltb_ℤ t (t0 +ℤ drain_timeout ng)
      then pure ng
      else if ng.spec.drain.force
      then (do force_delete (blocked_pods pods); pure ng)
      else pure (record ng {
        status = record ng.status {
          conditions = (env.set_condition ng.status.conditions (stuck_condition ng name)).0;
        };
      })

  started_of : Option NodeProgress → Option Time
  started_of none = none
  started_of (some np) = np.started_at

  since_start : NodeGroupUpgrade → String → List PodStatus → Option Time → Run NodeGroupUpgrade
  unfolding after_timeout
  since_start ng name pods none = pure ng
  since_start ng name pods (some t0) = do t ← now env; after_timeout ng name pods t0 t

  unfoldable pub handle_stuck_drain :
      NodeGroupUpgrade → String → List PodStatus → Run NodeGroupUpgrade
  unfolding since_start started_of
  handle_stuck_drain ng name pods =
      since_start ng name pods (started_of (entry ng.status.node_progress name))

  abbrev marked_drained : NodeGroupUpgrade → String → NodeGroupUpgrade
  marked_drained ng name =
      with_progress ng (change_named name (with_stage NodeStage.drained) ng.status.node_progress)

  -- the rest of one round of the drain loop; the flag is `allDrained`
  after_drain :
      NodeGroupUpgrade → Bool → String → List PodStatus → ℕ → Run (NodeGroupUpgrade × Bool)
  unfolding handle_stuck_drain
  after_drain ng all name pods zero = pure (marked_drained ng name, all)
  after_drain ng all name pods (suc n) = do ng' ← handle_stuck_drain ng name pods; pure (ng', false)

  unfoldable pub drain_all : NodeGroupUpgrade → Bool → List String → Run (NodeGroupUpgrade × Bool)
  unfolding after_drain
  drain_all ng all [] = pure (ng, all)
  drain_all ng all (name ∷ active) = do
    in_context "cordoning node" (cordon env name)
    pods ← in_context "draining node" (drain_node env (drain_options ng) name)
    (ng', all') ← after_drain ng all name pods (remaining pods)
    drain_all ng' all' active

  -- the end of reconcileDraining
  finish_drain : NodeGroupUpgrade × Bool → Run Outcome
  finish_drain (ng, false) = do write_status env ng; pure (requeue_after 15)
  finish_drain (ng, true) = do write_status env (with_phase ng GroupPhase.upgrading); pure requeue

  unfoldable pub drain_batch : NodeGroupUpgrade → List String → Run Outcome
  unfolding drain_all finish_drain
  drain_batch ng active = do result ← drain_all ng true active; finish_drain result

  -- with no batch under way: the next one, or the end
  begin_next : NodeGroupUpgrade → List String → Run Outcome
  unfolding start_all drain_batch
  begin_next ng [] = do write_status env (with_phase ng GroupPhase.complete); pure done
  begin_next ng (n ∷ next) = do
    t ← now env
    progress ← start_all t (n ∷ next) ng.status.node_progress
    write_status env (with_progress ng progress)
    drain_batch (with_progress ng progress) (n ∷ next)

  on_active : NodeGroupUpgrade → List String → Run Outcome
  unfolding begin_next drain_batch
  on_active ng [] = do next ← lift (next_batch_for env.scaled ng); begin_next ng next
  on_active ng (n ∷ active) = drain_batch ng (n ∷ active)

  unfoldable pub reconcile_draining : NodeGroupUpgrade → Run Outcome
  unfolding on_active
  reconcile_draining ng = on_active ng (active_batch ng.status.node_progress)
