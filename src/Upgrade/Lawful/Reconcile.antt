-- ===== src/Upgrade/Lawful/Reconcile.antt =====
-- Reconcile of a cluster upgrade.
use kubernetes_upgrade_opera.Base.{inl, Bool, true, false, not, ◌≡◌, refl}
use kubernetes_upgrade_opera.Types.{UpgradePhase, KubernetesUpgrade}
use kubernetes_upgrade_opera.Version.{Semver}
use kubernetes_upgrade_opera.Cluster.{
  Call, read_clock, upgrade_call, list_nodes, ask_version, get_lease, create_lease, update_lease,
  delete_lease, get_group, list_groups, apply_group, release_group, delete_group, update_upgrade,
  update_upgrade_status,
}
use kubernetes_upgrade_opera.Cluster.Rules.{
  Any, Ensures, Ensures-pure, Ensures-if, Ensures-in_context, Ensures-bind, Ensures-same,
}
use kubernetes_upgrade_opera.Upgrade.Calls.{UpgradeEnv}
use kubernetes_upgrade_opera.Upgrade.Calls.Rules.{
  Ensures-write_upgrade, Ensures-write_upgrade_status,
}
use kubernetes_upgrade_opera.Upgrade.Lease.Laws.{
  OnLease, acquire_lease-within, release_lease-within,
}
use kubernetes_upgrade_opera.Upgrade.Reconcile.{
  holder_id, contains_finalizer, is_terminal, upgrade_by_phase, with_lease, unless_paused,
  set_paused_condition, write_condition_if, reconcile_running, finalize, reconcile_upgrade,
}
use kubernetes_upgrade_opera.Upgrade.Child.{build_desired_child}
use kubernetes_upgrade_opera.Upgrade.Lawful.{Lawful}
use kubernetes_upgrade_opera.Upgrade.Lawful.Discovering.{reconcile_discovering-Lawful}
use kubernetes_upgrade_opera.Upgrade.Lawful.Phases.{
  begin_upgrade-Lawful, reconcile_prechecks-Lawful, reconcile_control_plane-Lawful,
}
use kubernetes_upgrade_opera.Upgrade.Lawful.Workers.{reconcile_workers-Lawful}
use kubernetes_upgrade_opera.Upgrade.Lawful.Postchecks.{reconcile_postchecks-Lawful}

module _ (S : Semver) (env : UpgradeEnv) (ku : KubernetesUpgrade) where
  -- The calls on the lease are lawful.
  OnLease-Lawful : (c : Call) → OnLease env (holder_id ku) c → Lawful S env ku c
  OnLease-Lawful read_clock k = tt
  OnLease-Lawful (upgrade_call get_lease) k = tt
  OnLease-Lawful (upgrade_call (create_lease l)) k = k
  OnLease-Lawful (upgrade_call (update_lease l)) k = k
  OnLease-Lawful (upgrade_call delete_lease) k = k
  OnLease-Lawful (upgrade_call list_nodes) k = absurd k
  OnLease-Lawful (upgrade_call ask_version) k = absurd k
  OnLease-Lawful (upgrade_call (get_group namespace name)) k = absurd k
  OnLease-Lawful (upgrade_call (list_groups namespace parent)) k = absurd k
  OnLease-Lawful (upgrade_call (apply_group ng)) k = absurd k
  OnLease-Lawful (upgrade_call (release_group ng)) k = absurd k
  OnLease-Lawful (upgrade_call (delete_group ng)) k = absurd k
  OnLease-Lawful (upgrade_call (update_upgrade ku')) k = absurd k
  OnLease-Lawful (upgrade_call (update_upgrade_status ku')) k = absurd k
  OnLease-Lawful _ k = absurd k

  upgrade_by_phase-Lawful :
      (p : UpgradePhase)
      → ku.status.phase ≡ p
      → Ensures (Lawful S env ku) (upgrade_by_phase S env p ku) Any
  unfolding upgrade_by_phase
  upgrade_by_phase-Lawful UpgradePhase.unset e = begin_upgrade-Lawful S env ku (rw e refl)
  upgrade_by_phase-Lawful UpgradePhase.pending e = begin_upgrade-Lawful S env ku (rw e refl)
  upgrade_by_phase-Lawful UpgradePhase.discovering e = reconcile_discovering-Lawful S env ku e
  upgrade_by_phase-Lawful UpgradePhase.prechecks e = reconcile_prechecks-Lawful S env ku e
  upgrade_by_phase-Lawful UpgradePhase.control_plane_upgrade e =
      reconcile_control_plane-Lawful S env ku e
  upgrade_by_phase-Lawful UpgradePhase.workers_upgrade e = reconcile_workers-Lawful S env ku e
  upgrade_by_phase-Lawful UpgradePhase.postchecks e = reconcile_postchecks-Lawful S env ku e
  upgrade_by_phase-Lawful _ e = Ensures-pure _ tt

  with_lease-Lawful : (b : Bool) → Ensures (Lawful S env ku) (with_lease S env ku b) Any
  unfolding with_lease
  with_lease-Lawful true = upgrade_by_phase-Lawful ku.status.phase refl
  with_lease-Lawful false = Ensures-pure _ tt

  unless_paused-Lawful : Ensures (Lawful S env ku) (unless_paused S env ku) Any
  unfolding unless_paused
  unless_paused-Lawful = Ensures-if ku.spec.paused _ _ (Ensures-pure _ tt) (
      Ensures-if (is_terminal ku.status.phase) _ _
        (Ensures-bind _ _ (release_lease-within env (holder_id ku) OnLease-Lawful)
          (λ _ _. Ensures-pure _ tt))
        (Ensures-bind _ _
          (Ensures-in_context _ _ (acquire_lease-within env (holder_id ku) OnLease-Lawful))
          (λ b _. with_lease-Lawful b)))

  finalize-Lawful : Ensures (Lawful S env ku) (finalize S env ku) Any
  unfolding finalize
  finalize-Lawful =
      Ensures-if (contains_finalizer ku.finalizers) _ _
        (Ensures-bind _ _ (release_lease-within env (holder_id ku) OnLease-Lawful) (λ _ _.
          Ensures-bind _ _ (Ensures-write_upgrade env _ (refl, refl)) (λ _ _. Ensures-pure _ tt)))
        (Ensures-pure _ tt)

module _ (S : Semver) (env : UpgradeEnv) (ku : KubernetesUpgrade) where
  write_condition_if-Lawful :
      (b : Bool)
      → Ensures (Lawful S env ku) (write_condition_if S env b (set_paused_condition S env ku)) Any
  unfolding write_condition_if set_paused_condition
  write_condition_if-Lawful true = Ensures-write_upgrade_status env _ (refl, inl refl)
  write_condition_if-Lawful false = Ensures-pure _ tt

  -- The conditions do not count for what is lawful.
  Lawful-set_paused_condition :
      (c : Call) → Lawful S env (set_paused_condition S env ku) c ≡ Lawful S env ku c
  unfolding set_paused_condition holder_id build_desired_child
  Lawful-set_paused_condition (upgrade_call list_nodes) = refl
  Lawful-set_paused_condition (upgrade_call ask_version) = refl
  Lawful-set_paused_condition (upgrade_call get_lease) = refl
  Lawful-set_paused_condition (upgrade_call (create_lease l)) = refl
  Lawful-set_paused_condition (upgrade_call (update_lease l)) = refl
  Lawful-set_paused_condition (upgrade_call delete_lease) = refl
  Lawful-set_paused_condition (upgrade_call (get_group namespace name)) = refl
  Lawful-set_paused_condition (upgrade_call (list_groups namespace parent)) = refl
  Lawful-set_paused_condition (upgrade_call (apply_group ng)) = refl
  Lawful-set_paused_condition (upgrade_call (release_group ng)) = refl
  Lawful-set_paused_condition (upgrade_call (delete_group ng)) = refl
  Lawful-set_paused_condition (upgrade_call (update_upgrade ku')) = refl
  Lawful-set_paused_condition (upgrade_call (update_upgrade_status ku')) = refl
  Lawful-set_paused_condition _ = refl

  reconcile_running-Lawful : Ensures (Lawful S env ku) (reconcile_running S env ku) Any
  unfolding reconcile_running
  reconcile_running-Lawful = Ensures-bind _ _ (write_condition_if-Lawful _) (λ _ _.
      Ensures-same _ Lawful-set_paused_condition
        (unless_paused-Lawful S env (set_paused_condition S env ku)))

  -- Every call of a reconcile is lawful.
  pub reconcile_upgrade-Lawful : Ensures (Lawful S env ku) (reconcile_upgrade S env ku) Any
  unfolding reconcile_upgrade
  reconcile_upgrade-Lawful = Ensures-if ku.deleting _ _ (finalize-Lawful S env ku) (
      Ensures-if (not (contains_finalizer ku.finalizers)) _ _
        (Ensures-bind _ _ (Ensures-write_upgrade env _ (refl, refl)) (λ _ _. Ensures-pure _ tt))
        reconcile_running-Lawful)
