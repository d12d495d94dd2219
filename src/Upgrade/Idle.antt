-- ===== src/Upgrade/Idle.antt =====
-- Reconciles of a cluster upgrade that is paused, or that does not get the lease.
use kubernetes_upgrade_opera.Base.{Bool, true, false, not, ◌≡◌, ◌≢◌, refl, if◌then◌else◌}
use kubernetes_upgrade_opera.Result.{Result, ok, err}
use kubernetes_upgrade_opera.Types.{KubernetesUpgrade}
use kubernetes_upgrade_opera.Version.{Semver}
use kubernetes_upgrade_opera.Cluster.{
  Call, read_clock, get_lease, create_lease, update_lease, delete_lease, update_upgrade,
  update_upgrade_status, upgrade_call, History, pure, Run,
}
use kubernetes_upgrade_opera.Cluster.Rules.{
  Any, Post, Ensures, Ensures-pure, Ensures-if, Ensures-in_context, Ensures-bind,
}
use kubernetes_upgrade_opera.NodeGroup.Draining.{done}
use kubernetes_upgrade_opera.Upgrade.Calls.{UpgradeEnv}
use kubernetes_upgrade_opera.Upgrade.Calls.Rules.{
  Ensures-write_upgrade, Ensures-write_upgrade_status,
}
use kubernetes_upgrade_opera.Upgrade.Lease.{acquire_lease}
use kubernetes_upgrade_opera.Upgrade.Lease.Laws.{
  OnLease, acquire_lease-within, release_lease-within,
}
use kubernetes_upgrade_opera.Upgrade.Reconcile.{
  holder_id, contains_finalizer, is_terminal, with_lease, unless_paused, set_paused_condition,
  write_condition_if, reconcile_running, reconcile_upgrade,
}

-- A write that touches only the finalizers, or only the conditions.
abbrev pub OnlyMarks : KubernetesUpgrade → Call → Type 0
OnlyMarks ku (upgrade_call (update_upgrade ku')) = ku' ≡ record ku { finalizers = ku'.finalizers }
OnlyMarks ku (upgrade_call (update_upgrade_status ku')) =
    ku' ≡ record ku { status = record ku.status { conditions = ku'.status.conditions } }
OnlyMarks ku _ = ⊥

-- A call on the lease, with its grounds, or such a write.
abbrev pub OnlyLease : UpgradeEnv → KubernetesUpgrade → Call → Type 0
OnlyLease env ku (upgrade_call (update_upgrade ku')) =
    OnlyMarks ku (upgrade_call (update_upgrade ku'))
OnlyLease env ku (upgrade_call (update_upgrade_status ku')) =
    OnlyMarks ku (upgrade_call (update_upgrade_status ku'))
OnlyLease env ku c = OnLease env (holder_id ku) c

OnLease-OnlyLease :
    (env : UpgradeEnv) (ku : KubernetesUpgrade) (c : Call)
    → OnLease env (holder_id ku) c
    → OnlyLease env ku c
OnLease-OnlyLease env ku (upgrade_call (update_upgrade ku')) k = absurd k
OnLease-OnlyLease env ku (upgrade_call (update_upgrade_status ku')) k = absurd k
OnLease-OnlyLease env ku (upgrade_call get_lease) k = k
OnLease-OnlyLease env ku (upgrade_call (create_lease l)) k = k
OnLease-OnlyLease env ku (upgrade_call (update_lease l)) k = k
OnLease-OnlyLease env ku (upgrade_call delete_lease) k = k
OnLease-OnlyLease env ku (upgrade_call _) k = absurd k
OnLease-OnlyLease env ku read_clock k = k
OnLease-OnlyLease env ku _ k = absurd k

-- A result that is not `ok true` is an error or `false`.
not_granted : (r : Result Bool) → r ≢ ok true → Post (λ b. b ≡ false) r
not_granted (ok true) h = absurd (h refl)
not_granted (ok false) h = refl
not_granted (err e) h = tt

not_taken :
    {A : Type 0} {C : Call → Type 0} {Q : A → Type 0} (b : Bool) (m n : Run A)
    → b ≡ false
    → Ensures C n Q
    → Ensures C (if b then m else n) Q
not_taken true m n e k = absurd cc
not_taken false m n e k = k

module _ (S : Semver) (env : UpgradeEnv) (ku : KubernetesUpgrade) {C : Call → Type 0}
    (marks : (c : Call) → OnlyMarks ku c → C c) where
  write_condition_if-within :
      (b : Bool) → Ensures C (write_condition_if S env b (set_paused_condition S env ku)) Any
  unfolding write_condition_if set_paused_condition
  write_condition_if-within true = Ensures-write_upgrade_status env _ (marks _ refl)
  write_condition_if-within false = Ensures-pure _ tt

  running-within :
      Ensures C (unless_paused S env (set_paused_condition S env ku)) Any
      → Ensures C (reconcile_running S env ku) Any
  unfolding reconcile_running
  running-within k = Ensures-bind _ _ (write_condition_if-within _) (λ _ _. k)

  -- Where an upgrade is not being deleted, and is run within `C`, it is reconciled within `C`.
  reconcile-within :
      ku.deleting ≡ false
      → Ensures C (unless_paused S env (set_paused_condition S env ku)) Any
      → Ensures C (reconcile_upgrade S env ku) Any
  unfolding reconcile_upgrade
  reconcile-within e k = not_taken ku.deleting _ _ e (
      Ensures-if (not (contains_finalizer ku.finalizers)) _ _
        (Ensures-bind _ _ (Ensures-write_upgrade env _ (marks _ refl)) (λ _ _. Ensures-pure _ tt))
        (running-within k))

module _ (S : Semver) (env : UpgradeEnv) (ku : KubernetesUpgrade) (kept : ku.deleting ≡ false) where
  unless_paused-done :
      ku.spec.paused ≡ true → unless_paused S env (set_paused_condition S env ku) ≡ pure done
  unfolding unless_paused set_paused_condition
  unless_paused-done e = rw e refl

  -- A reconcile of a paused upgrade that is not being deleted makes no call but a write in which
  -- only the finalizers or only the conditions have changed; above all, it does not touch the lease.
  pub reconcile_upgrade-OnlyMarks :
      ku.spec.paused ≡ true → Ensures (OnlyMarks ku) (reconcile_upgrade S env ku) Any
  reconcile_upgrade-OnlyMarks e =
      reconcile-within S env ku (λ c k. k) kept (rw (unless_paused-done e) (Ensures-pure done tt))

  module _ (denied : (h : History) → (acquire_lease env (holder_id ku) h).0 ≢ ok true) where
    acquire-denied : Ensures (OnlyLease env ku) (acquire_lease env (holder_id ku)) (λ b. b ≡ false)
    acquire-denied = record {
      at = λ h all. (
        ((acquire_lease-within {C = OnlyLease env ku} env (holder_id ku)
              (OnLease-OnlyLease env ku)).at
            h all).0,
        not_granted _ (denied h),
      );
    }

    waits_for :
        (b : Bool) (k : KubernetesUpgrade)
        → b ≡ false
        → Ensures (OnlyLease env ku) (with_lease S env k b) Any
    unfolding with_lease
    waits_for true k e = absurd cc
    waits_for false k e = Ensures-pure _ tt

    unless_paused-OnlyLease :
        Ensures (OnlyLease env ku) (unless_paused S env (set_paused_condition S env ku)) Any
    unfolding unless_paused set_paused_condition holder_id
    unless_paused-OnlyLease = Ensures-if ku.spec.paused _ _ (Ensures-pure _ tt) (
        Ensures-if (is_terminal ku.status.phase) _ _
          (Ensures-bind _ _ (release_lease-within env (holder_id ku) (OnLease-OnlyLease env ku))
            (λ _ _. Ensures-pure _ tt))
          (Ensures-bind _ _ (Ensures-in_context _ _ acquire-denied) (λ b e. waits_for b _ e)))

    -- Where acquiring the lease is never granted, a reconcile of an upgrade that is not being deleted
    -- makes no call but those on the lease, and a write in which only the finalizers or only the
    -- conditions have changed: it applies, releases and deletes no group and leaves the phase.
    pub reconcile_upgrade-OnlyLease : Ensures (OnlyLease env ku) (reconcile_upgrade S env ku) Any
    reconcile_upgrade-OnlyLease = reconcile-within S env ku by_marks kept unless_paused-OnlyLease
      where
        by_marks : (c : Call) → OnlyMarks ku c → OnlyLease env ku c
        by_marks (upgrade_call (update_upgrade ku')) k = k
        by_marks (upgrade_call (update_upgrade_status ku')) k = k
        by_marks (upgrade_call _) k = absurd k
        by_marks _ k = absurd k
