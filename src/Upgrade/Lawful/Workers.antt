-- ===== src/Upgrade/Lawful/Workers.antt =====
-- WorkersUpgrade.
use kubernetes_upgrade_opera.Base.{
  Bool, true, false, none, some, Option, List, [], ◌∷◌, All, ◌≡◌, refl, inl, inr,
}
use kubernetes_upgrade_opera.Types.{
  Role, control_plane, worker, GroupPhase, NodeGroupUpgrade, UpgradePhase, KubernetesUpgrade,
}
use kubernetes_upgrade_opera.Version.{Semver}
use kubernetes_upgrade_opera.Cluster.{pure, in_context, ◌>>=◌}
use kubernetes_upgrade_opera.Cluster.Rules.{
  Any, Ensures, Ensures-pure, Ensures-in_context, Ensures-bind, Ensures-weaken,
}
use kubernetes_upgrade_opera.Upgrade.Calls.{UpgradeEnv}
use kubernetes_upgrade_opera.Upgrade.Calls.Rules.{Ensures-read_groups}
use kubernetes_upgrade_opera.Upgrade.Phases.{
  Verdict, all_complete, still_waiting, one_failed, worker_state, clear_hold, visit_workers,
  after_workers, reconcile_workers_upgrade,
}
use kubernetes_upgrade_opera.Upgrade.Course.{workers_done, fails}
use kubernetes_upgrade_opera.Upgrade.Lawful.{Current, Lawful}
use kubernetes_upgrade_opera.Upgrade.Lawful.Phases.{
  move_on-Lawful, fail_with-Lawful, clear_hold-Current,
}
use kubernetes_upgrade_opera.Upgrade.Lawful.{Children, WorkerIn, WorkerDone}
use mathlib.Core.List.{Memᴰ}
use mathlib.Core.List.Memᴰ.{head, tail}

-- What the loop finds among the children.
abbrev Found : UpgradeEnv → List NodeGroupUpgrade → Bool → Verdict → Type 0
Found env children so_far all_complete = All (WorkerDone env) children × (so_far ≡ true)
Found env children so_far still_waiting = Unit
Found env children so_far (one_failed now) =
    (child : NodeGroupUpgrade) × Memᴰ child children × WorkerIn env GroupPhase.failed child

-- How a worker's phase changes what the loop has seen so far.
data State (so_far : Bool) : GroupPhase → Option Bool → Type 0 where
  is_complete : State so_far GroupPhase.complete (some so_far)
  is_failed : State so_far GroupPhase.failed none
  is_other : (p : GroupPhase) → State so_far p (some false)

worker_state-State : (p : GroupPhase) (so_far : Bool) → State so_far p (worker_state p so_far)
unfolding worker_state
worker_state-State GroupPhase.complete so_far = is_complete
worker_state-State GroupPhase.failed so_far = is_failed
worker_state-State _ so_far = is_other _

Found-behind :
    (env : UpgradeEnv) (c : NodeGroupUpgrade) (children : List NodeGroupUpgrade)
    (before so_far : Bool) (v : Verdict)
    → (so_far ≡ true → WorkerDone env c × (before ≡ true))
    → Found env children so_far v
    → Found env (c ∷ children) before v
Found-behind env c children before so_far all_complete f (all, e) = (((f e).0, all), (f e).1)
Found-behind env c children before so_far still_waiting f seen = tt
Found-behind env c children before so_far (one_failed now) f (child, m, failed) =
    (child, tail m, failed)

module _ (S : Semver) (env : UpgradeEnv) (ku : KubernetesUpgrade)
    (phase : ku.status.phase ≡ UpgradePhase.workers_upgrade) where
  visit_workers-Found :
      (children : List NodeGroupUpgrade) (so_far : Bool)
      → Ensures (Lawful S env ku) (visit_workers env children so_far) (Found env children so_far)
  unfolding visit_workers
  visit_workers-Found [] true = Ensures-pure _ (tt, refl)
  visit_workers-Found [] false = Ensures-pure _ tt
  visit_workers-Found (child ∷ children) so_far =
      by_role child.spec.role refl (visit_workers-Found children)
    where
      after :
          (now : NodeGroupUpgrade) (p : GroupPhase) (o : Option Bool)
          → now.status.phase ≡ p
          → State so_far p o
          → child.spec.role ≡ worker
          → Current env child now
          → ((b : Bool)
              → Ensures (Lawful S env ku) (visit_workers env children b) (Found env children b))
          → Ensures
              (Lawful S env ku)
              (elim o [
                | none ↦ pure (one_failed now)
                | some still ↦ visit_workers env children still
              ])
              (Found env (child ∷ children) so_far)
      after now p o e is_complete role current rest =
          Ensures-weaken _
            (λ v seen.
              Found-behind env child children so_far so_far v
                (λ t. (inr (role, (now, current, e)), t)) seen)
            (rest so_far)
      after now p o e is_failed role current rest =
          Ensures-pure _ (child, head refl, (role, (now, current, e)))
      after now p o e (is_other q) role current rest =
          Ensures-weaken _
            (λ v seen. Found-behind env child children so_far false v (λ t. absurd cc) seen)
            (rest false)

      by_role :
          (role : Role)
          → child.spec.role ≡ role
          → ((b : Bool)
              → Ensures (Lawful S env ku) (visit_workers env children b) (Found env children b))
          → Ensures
              (Lawful S env ku)
              (elim role [
                | control_plane ↦ visit_workers env children so_far
                | worker ↦
                    in_context "clearing hold on worker group" (clear_hold env child) >>= (λ stored.
                      elim (worker_state stored.status.phase so_far) [
                        | none ↦ pure (one_failed stored)
                        | some still ↦ visit_workers env children still
                      ])
              ])
              (Found env (child ∷ children) so_far)
      by_role control_plane e rest =
          Ensures-weaken _
            (λ v seen. Found-behind env child children so_far so_far v (λ t. (inl e, t)) seen)
            (rest so_far)
      by_role worker e rest =
          Ensures-bind _ _
            (Ensures-in_context _ _ (clear_hold-Current S env ku child (inl (phase, e))))
            (λ now current.
              after now now.status.phase _ refl (worker_state-State now.status.phase so_far) e
                current rest)

  after_workers-Lawful :
      (children : List NodeGroupUpgrade) (v : Verdict)
      → Children env ku children
      → Found env children true v
      → Ensures (Lawful S env ku) (after_workers env ku v) Any
  unfolding after_workers
  after_workers-Lawful children all_complete read (all, e) =
      move_on-Lawful S env ku _ ku.status (workers_done phase (children, read, all))
  after_workers-Lawful children still_waiting read seen = Ensures-pure _ tt
  after_workers-Lawful children (one_failed now) read (child, m, failed) =
      fail_with-Lawful S env ku _ now ku.status
        (fails (inr phase) (inr (children, child, read, m, failed)))

  pub reconcile_workers-Lawful : Ensures (Lawful S env ku) (reconcile_workers_upgrade env ku) Any
  unfolding reconcile_workers_upgrade
  reconcile_workers-Lawful =
      Ensures-bind _ _ (Ensures-in_context _ _ (Ensures-read_groups env ku.namespace ku.name tt))
        (λ children read.
          Ensures-bind _ _ (visit_workers-Found children true)
            (λ v seen. after_workers-Lawful children v read seen))
