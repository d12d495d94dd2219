-- ===== src/NodeGroup/Verifying/Keeps.antt =====
-- reconcileVerifying of nodegroupupgrade_verifying.go and the invariant of a group.
use kubernetes_upgrade_opera.Base.{
  ℕ, suc, ◌+◌, pos, int32, int32-suc, String, ◌≡◌, refl, Bool, true, false, Option, none, some,
  List, [], ◌∷◌, length, arith, sym, ◌∙◌, ap,
}
use kubernetes_upgrade_opera.Result.{Result, ok, err}
use kubernetes_upgrade_opera.Core.{Time, Node}
use kubernetes_upgrade_opera.Batches.{Scaled}
use kubernetes_upgrade_opera.Batches.Limit.{resolve_concurrency-nonneg}
use kubernetes_upgrade_opera.Types.{GroupPhase, NodeGroupUpgrade, NodeGroupUpgradeSpec}
use kubernetes_upgrade_opera.Version.{Semver}
use kubernetes_upgrade_opera.NodeState.{node_is_at_version}
use kubernetes_upgrade_opera.NodeState.Laws.{fetch_node-calls, uncordon-calls}
use kubernetes_upgrade_opera.Adapter.{Adapter, Registry, get_adapter}
use kubernetes_upgrade_opera.Adapter.Quiet.{QuietIf, AllQuiet, get_adapter-Quiet}
use kubernetes_upgrade_opera.Cluster.{Env, adapter_verify}
use kubernetes_upgrade_opera.Cluster.Rules.{
  Post, Any, Ensures, Ensures-pure, Ensures-if, Ensures-lift, Ensures-attempt, Ensures-in_context,
  Ensures-weaken, Ensures-bind, Ensures-note, Ensures-now, Ensures-write_status,
}
use kubernetes_upgrade_opera.NodeGroup.Progress.{active_batch}
use kubernetes_upgrade_opera.NodeGroup.Progress.Changes.{Distinct}
use kubernetes_upgrade_opera.NodeGroup.Progress.Counts.{completed_count, length-active_batch}
use kubernetes_upgrade_opera.NodeGroup.Progress.Completion.{
  complete_names, complete_names-active_batch, entry_names-complete_names,
}
use kubernetes_upgrade_opera.NodeGroup.Invariant.{Writes, Running, Running-Writes, Running-phase}
use kubernetes_upgrade_opera.NodeGroup.Upgrading.Keeps.{handle_adapter_error-Writes}
use kubernetes_upgrade_opera.NodeGroup.Verifying.{
  marked_complete, check_node, all_at_target, complete_all, after_verify, verify_with, after_checks,
  verify_active, reconcile_verifying,
}

-- The group behind the last loop, whose count stood at `c`.
record Completed (t : Time) (names : List String) (c : ℕ) (ng after : NodeGroupUpgrade)
    : Type 0 where
  same_spec : after.spec ≡ ng.spec
  same_phase : after.status.phase ≡ ng.status.phase
  progress : after.status.node_progress ≡ complete_names t names ng.status.node_progress
  counted : after.status.upgraded_nodes ≡ int32 (pos (c + length names))

sum_zero : (c : ℕ) → c ≡ c + 0
sum_zero c = omega arith

sum_suc : (c n : ℕ) → suc c + n ≡ c + suc n
sum_suc c n = omega arith

Any-bool : (r : Result Bool) → Post Any r
Any-bool (ok a) = tt
Any-bool (err e) = tt

module _ {scaled : Scaled} {spec : NodeGroupUpgradeSpec} (env : Env) where
  complete_all-Completed :
      (S : Semver) (t : Time) (names : List String) (c : ℕ) (ng : NodeGroupUpgrade)
      → ng.status.upgraded_nodes ≡ int32 (pos c)
      → Ensures (Writes scaled spec) (complete_all S env t names ng) (Completed t names c ng)
  unfolding complete_all complete_names
  complete_all-Completed S t [] c ng e = Ensures-pure _ (record {
    same_spec = refl;
    same_phase = refl;
    progress = refl;
    counted = e ∙ ap (λ n. int32 (pos n)) (sum_zero c);
  })
  complete_all-Completed S t (name ∷ names) c ng e =
      Ensures-bind _ _ (Ensures-in_context _ _ (uncordon-calls env name tt tt)) (λ _ _.
        Ensures-weaken _ one_more (
          complete_all-Completed S t names (suc c) (marked_complete t name ng)
            (rw e (int32-suc c))))
    where
      one_more :
          (after : NodeGroupUpgrade)
          → Completed t names (suc c) (marked_complete t name ng) after
          → Completed t (name ∷ names) c ng after
      one_more after k = record {
        same_spec = k.same_spec;
        same_phase = k.same_phase;
        progress = k.progress;
        counted = k.counted ∙ ap (λ n. int32 (pos n)) (sum_suc c (length names));
      }

  Completed-Running :
      (t : Time) (ng after : NodeGroupUpgrade)
      → Distinct spec.nodes
      → Running scaled spec ng
      → Completed t
          (active_batch ng.status.node_progress)
          (completed_count ng.status.node_progress)
          ng
          after
      → Running scaled spec after
  Completed-Running t ng after d r k =
      let progress = ng.status.node_progress in
      let (counts, idle) = complete_names-active_batch t progress (rw r.tracked.named d) in
      record {
        same_spec = k.same_spec ∙ r.same_spec;
        tracked = record {
          named = rw (k.progress, entry_names-complete_names) r.tracked.named;
          within =
              rw (k.progress, idle)
                (λ limit e.
                  resolve_concurrency-nonneg scaled (length spec.nodes) spec.batch_size
                    spec.max_unavailable e);
          counted =
              rw (k.progress, counts)
                (k.counted
                  ∙ ap (λ n. int32 (pos (completed_count progress + n)))
                      (length-active_batch progress));
        };
        unfinished = rw k.same_phase r.unfinished;
      }

  check_node-Writes :
      (S : Semver) (target : String) (node : Node)
      → Ensures (Writes scaled spec) (check_node S env target node) Any
  unfolding check_node
  check_node-Writes S target node =
      Ensures-if _ _ _
        (Ensures-in_context _ _ (Ensures-lift _ (Any-bool (node_is_at_version S node target))))
        (Ensures-pure _ tt)

  all_at_target-Writes :
      (S : Semver) (target : String) (active : List String)
      → Ensures (Writes scaled spec) (all_at_target S env target active) Any
  unfolding all_at_target
  all_at_target-Writes S target [] = Ensures-pure _ tt
  all_at_target-Writes S target (name ∷ active) =
      Ensures-bind _ _ (fetch_node-calls env name tt) (λ node _.
        Ensures-bind _ _ (check_node-Writes S target node)
          (λ fine _. Ensures-if _ _ _ (all_at_target-Writes S target active) (Ensures-pure _ tt)))

module _ {scaled : Scaled} {spec : NodeGroupUpgradeSpec} (S : Semver) (env : Env)
    (distinct : Distinct spec.nodes) where
  after_verify-Writes :
      (ng : NodeGroupUpgrade) (verified : Result (Bool × String))
      → Running scaled spec ng
      → Ensures
          (Writes scaled spec)
          (after_verify S env ng (active_batch ng.status.node_progress) verified)
          Any
  unfolding after_verify
  after_verify-Writes ng (err e) r = handle_adapter_error-Writes env ng "Verify" e r
  after_verify-Writes ng (ok (false, reason)) r = Ensures-pure _ tt
  after_verify-Writes ng (ok (true, reason)) r = Ensures-bind _ _ (Ensures-now env tt) (λ t _.
      Ensures-bind _ _
        (complete_all-Completed env S t (active_batch ng.status.node_progress)
          (completed_count ng.status.node_progress) ng r.tracked.counted)
        (λ after k.
          Ensures-bind _ _
            (Ensures-write_status env _ (
              Running-Writes (
                Running-phase GroupPhase.draining refl
                  (Completed-Running env t ng after distinct r k))))
            (λ _ _. Ensures-pure _ tt)))

  verify_with-Writes :
      (ng : NodeGroupUpgrade) (found : Option Adapter)
      → QuietIf (Writes scaled spec) found
      → Running scaled spec ng
      → Ensures
          (Writes scaled spec)
          (verify_with S env ng (active_batch ng.status.node_progress) found)
          Any
  unfolding verify_with
  verify_with-Writes ng none quiet r =
      Ensures-bind _ _
        (Ensures-write_status env _ (
          Running-Writes
            (record { same_spec = r.same_spec; tracked = r.tracked; unfinished = refl })))
        (λ _ _. Ensures-pure _ tt)
  verify_with-Writes ng (some adapter) quiet r =
      Ensures-bind _ _ (Ensures-note adapter_verify tt) (λ _ _.
        Ensures-bind _ _ (Ensures-attempt _ (quiet.verify ng))
          (λ verified _. after_verify-Writes ng verified r))

  module _ (adapters : Registry) (quiet : AllQuiet (Writes scaled spec) adapters) where
    after_checks-Writes :
        (ng : NodeGroupUpgrade) (fine : Bool)
        → Running scaled spec ng
        → Ensures
            (Writes scaled spec)
            (after_checks S env adapters ng (active_batch ng.status.node_progress) fine)
            Any
    unfolding after_checks
    after_checks-Writes ng false r = Ensures-pure _ tt
    after_checks-Writes ng true r =
        verify_with-Writes ng (get_adapter adapters ng.spec.provider)
          (get_adapter-Quiet (Writes scaled spec) adapters ng.spec.provider quiet) r

    verify_active-Writes :
        (ng : NodeGroupUpgrade) (active : List String)
        → active_batch ng.status.node_progress ≡ active
        → Running scaled spec ng
        → Ensures (Writes scaled spec) (verify_active S env adapters ng active) Any
    unfolding verify_active
    verify_active-Writes ng [] e r =
        Ensures-bind _ _
          (Ensures-write_status env _ (Running-Writes (Running-phase GroupPhase.draining refl r)))
          (λ _ _. Ensures-pure _ tt)
    verify_active-Writes ng (n ∷ active) e r =
        Ensures-bind _ _ (all_at_target-Writes env S ng.spec.target_version (n ∷ active))
          (λ fine _. rw (sym e) (after_checks-Writes ng fine r))

    pub reconcile_verifying-Writes :
        (ng : NodeGroupUpgrade)
        → Running scaled spec ng
        → Ensures (Writes scaled spec) (reconcile_verifying S env adapters ng) Any
    unfolding reconcile_verifying
    reconcile_verifying-Writes ng r = verify_active-Writes ng _ refl r
