-- ===== src/NodeGroup/Draining/Batch.antt =====
-- Starting the nodes of a batch and draining it, and the invariant of a group.
use kubernetes_upgrade_opera.Base.{
  ℕ, zero, suc, ◌+◌, ◌≤◌, String, ◌≡◌, refl, Bool, true, false, Option, none, some, List, [], ◌∷◌,
  length, arith, ◌∙◌,
}
use kubernetes_upgrade_opera.Result.{
  Result, ok, err, ApiError, not_found, already_exists, conflict, too_many_requests, other,
}
use kubernetes_upgrade_opera.Core.{Time, Node}
use kubernetes_upgrade_opera.Batches.{Scaled}
use kubernetes_upgrade_opera.Types.{
  GroupPhase, NodeStage, NodeProgress, NodeGroupUpgrade, NodeGroupUpgradeSpec,
}
use kubernetes_upgrade_opera.Drain.{PodStatus, remaining, blocked_pods}
use kubernetes_upgrade_opera.Drain.Laws.{drain_node-calls}
use kubernetes_upgrade_opera.NodeState.Laws.{fetch_node-calls, cordon-calls}
use kubernetes_upgrade_opera.Cluster.{Env}
use kubernetes_upgrade_opera.Cluster.Rules.{
  Post, Any, Ensures, Ensures-pure, Ensures-lift, Ensures-if, Ensures-attempt, Ensures-in_context,
  Ensures-bind, Ensures-weaken, Ensures-remove_pod, Ensures-write_status, Ensures-now,
}
use kubernetes_upgrade_opera.NodeGroup.Progress.{entry, with_stage, with_phase}
use kubernetes_upgrade_opera.NodeGroup.Progress.Changes.{entry_names, entry_names-change_named}
use kubernetes_upgrade_opera.NodeGroup.Progress.Counts.{
  is_completed, active_count, completed_count, active_count-change, completed_count-keep,
}
use kubernetes_upgrade_opera.NodeGroup.Invariant.{
  Writes, Running, Running-Writes, Running-phase, Tracked-change, stage_times,
}
use kubernetes_upgrade_opera.NodeGroup.Draining.{
  started, start_named, start_all, unless_missing, force_delete, after_timeout, started_of,
  since_start, handle_stuck_drain, marked_drained, after_drain, drain_all, finish_drain,
  drain_batch,
}

-- What starting `k` more entries may do to a progress list.
pub record Grown (k : ℕ) (before after : List NodeProgress) : Type 0 where
  pub names : entry_names after ≡ entry_names before
  pub active : active_count after ≤ active_count before + k
  pub done : completed_count after ≡ completed_count before

module _ (env : Env) where
  started-name :
      (t : Time) (node : Result Node) (np : NodeProgress) → (started env t node np).name ≡ np.name
  started-name t (ok node) np = refl
  started-name t (err e) np = refl

  started-completed :
      (t : Time) (node : Result Node) (np : NodeProgress)
      → is_completed (started env t node np) ≡ is_completed np
  unfolding is_completed
  started-completed t (ok node) np = refl
  started-completed t (err e) np = refl

module _ (env : Env) where
  deleted : (reply : Option ApiError) → Post Any (unless_missing env reply)
  deleted none = tt
  deleted (some not_found) = tt
  deleted (some already_exists) = tt
  deleted (some conflict) = tt
  deleted (some too_many_requests) = tt
  deleted (some other) = tt

module _ {scaled : Scaled} {spec : NodeGroupUpgradeSpec} (env : Env) where
  start_named-Grown :
      (t : Time) (name : String) (progress : List NodeProgress) (found : Option NodeProgress)
      → Ensures (Writes scaled spec) (start_named env t name progress found) (Grown 1 progress)
  unfolding start_named
  start_named-Grown t name progress none =
      Ensures-pure _ (record { names = refl; active = omega arith; done = refl })
  start_named-Grown t name progress (some np) =
      Ensures-bind _ _ (Ensures-attempt _ (fetch_node-calls env name tt)) (λ node _.
        Ensures-pure _ (record {
          names =
              entry_names-change_named name (started env t node) progress (started-name env t node);
          active = omega (arith, active_count-change name (started env t node) progress);
          done =
              completed_count-keep name (started env t node) progress
                (started-completed env t node);
        }))

  pub start_all-Grown :
      (t : Time) (names : List String) (progress : List NodeProgress)
      → Ensures
          (Writes scaled spec)
          (start_all env t names progress)
          (Grown (length names) progress)
  unfolding start_all
  start_all-Grown t [] progress =
      Ensures-pure _ (record { names = refl; active = omega arith; done = refl })
  start_all-Grown t (name ∷ names) progress =
      Ensures-bind _ _ (start_named-Grown t name progress (entry progress name)) (λ middle g.
        Ensures-weaken _
          (λ after k. record {
            names = k.names ∙ g.names;
            active = omega (arith, k.active, g.active);
            done = k.done ∙ g.done;
          })
          (start_all-Grown t names middle))

  force_delete-Writes :
      (pods : List PodStatus) → Ensures (Writes scaled spec) (force_delete env pods) Any
  unfolding force_delete
  force_delete-Writes [] = Ensures-pure tt tt
  force_delete-Writes (p ∷ pods) =
      Ensures-bind _ _ (Ensures-remove_pod env p.namespace p.name tt) (λ reply _.
        Ensures-bind _ _ (Ensures-lift _ (deleted env reply)) (λ _ _. force_delete-Writes pods))

  after_timeout-Running :
      (ng : NodeGroupUpgrade) (name : String) (pods : List PodStatus) (t0 t : Time)
      → Running scaled spec ng
      → Ensures (Writes scaled spec) (after_timeout env ng name pods t0 t) (Running scaled spec)
  unfolding after_timeout
  after_timeout-Running ng name pods t0 t r = Ensures-if _ _ _ (Ensures-pure _ r) (
      Ensures-if _ _ _
        (Ensures-bind _ _ (force_delete-Writes (blocked_pods pods)) (λ _ _. Ensures-pure _ r))
        (Ensures-pure _
          (record { same_spec = r.same_spec; tracked = r.tracked; unfinished = r.unfinished })))

  since_start-Running :
      (ng : NodeGroupUpgrade) (name : String) (pods : List PodStatus) (t0 : Option Time)
      → Running scaled spec ng
      → Ensures (Writes scaled spec) (since_start env ng name pods t0) (Running scaled spec)
  unfolding since_start
  since_start-Running ng name pods none r = Ensures-pure _ r
  since_start-Running ng name pods (some t0) r =
      Ensures-bind _ _ (Ensures-now env tt) (λ t _. after_timeout-Running ng name pods t0 t r)

  marked_drained-Running :
      (ng : NodeGroupUpgrade) (name : String)
      → Running scaled spec ng
      → Running scaled spec (marked_drained env ng name)
  marked_drained-Running ng name r = record {
    same_spec = r.same_spec;
    tracked =
        Tracked-change name (with_stage NodeStage.drained) (λ np. refl)
          (stage_times NodeStage.drained) r.tracked;
    unfinished = r.unfinished;
  }

  after_drain-Running :
      (ng : NodeGroupUpgrade) (all : Bool) (name : String) (pods : List PodStatus) (left : ℕ)
      → Running scaled spec ng
      → Ensures
          (Writes scaled spec)
          (after_drain env ng all name pods left)
          (λ out. Running scaled spec out.0)
  unfolding after_drain handle_stuck_drain
  after_drain-Running ng all name pods zero r = Ensures-pure _ (marked_drained-Running ng name r)
  after_drain-Running ng all name pods (suc n) r =
      Ensures-bind _ _
        (since_start-Running ng name pods (started_of env (entry ng.status.node_progress name)) r)
        (λ ng' r'. Ensures-pure _ r')

  drain_all-Running :
      (ng : NodeGroupUpgrade) (all : Bool) (active : List String)
      → Running scaled spec ng
      → Ensures
          (Writes scaled spec)
          (drain_all env ng all active)
          (λ out. Running scaled spec out.0)
  unfolding drain_all
  drain_all-Running ng all [] r = Ensures-pure _ r
  drain_all-Running ng all (name ∷ active) r =
      Ensures-bind _ _ (Ensures-in_context _ _ (cordon-calls env name tt tt)) (λ _ _.
        Ensures-bind _ _ (Ensures-in_context _ _ (drain_node-calls env _ name tt (λ pod _. tt)))
          (λ pods _.
            Ensures-bind _ _ (after_drain-Running ng all name pods (remaining pods) r)
              (λ out r'. drain_all-Running out.0 out.1 active r')))

  finish_drain-Writes :
      (out : NodeGroupUpgrade × Bool)
      → Running scaled spec out.0
      → Ensures (Writes scaled spec) (finish_drain env out) Any
  unfolding finish_drain
  finish_drain-Writes (ng, false) r =
      Ensures-bind _ _ (Ensures-write_status env ng (Running-Writes r)) (λ _ _. Ensures-pure _ tt)
  finish_drain-Writes (ng, true) r =
      Ensures-bind _ _
        (Ensures-write_status env (with_phase ng GroupPhase.upgrading)
          (Running-Writes (Running-phase GroupPhase.upgrading refl r)))
        (λ _ _. Ensures-pure _ tt)

  pub drain_batch-Writes :
      (ng : NodeGroupUpgrade) (active : List String)
      → Running scaled spec ng
      → Ensures (Writes scaled spec) (drain_batch env ng active) Any
  unfolding drain_batch
  drain_batch-Writes ng active r =
      Ensures-bind _ _ (drain_all-Running ng true active r) (λ out r'. finish_drain-Writes out r')
