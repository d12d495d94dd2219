-- ===== src/Upgrade/Lawful/Phases.antt =====
-- Pending, Prechecks and ControlPlaneUpgrade.
use kubernetes_upgrade_opera.Base.{
  ◌≢◌, String, Bool, true, false, List, [], ◌∷◌, All, ◌≡◌, refl, inl, inr, if◌then◌else◌,
}
use kubernetes_upgrade_opera.Result.{not_found, already_exists, conflict, too_many_requests, other}
use kubernetes_upgrade_opera.Core.{Node}
use kubernetes_upgrade_opera.Types.{
  Role, control_plane, worker, GroupPhase, NodeGroupUpgrade, UpgradePhase, DiscoveredGroupStatus,
  KubernetesUpgradeStatus, KubernetesUpgrade,
}
use kubernetes_upgrade_opera.Version.{Semver}
use kubernetes_upgrade_opera.Cluster.{History, Answer, found, refused, pure, ◌>>◌}
use kubernetes_upgrade_opera.Cluster.Rules.{
  Any, anything, Ensures, Ensures-pure, Ensures-raise, Ensures-lift, Ensures-in_context,
  Ensures-bind, Ensures-weaken,
}
use kubernetes_upgrade_opera.NodeGroup.Draining.{requeue_after}
use kubernetes_upgrade_opera.Upgrade.Calls.{UpgradeEnv, write_release, write_upgrade_status}
use kubernetes_upgrade_opera.Upgrade.Calls.Rules.{
  Ensures-read_nodes, Ensures-read_group, Ensures-write_release, Ensures-write_upgrade_status,
}
use kubernetes_upgrade_opera.Upgrade.Phases.{
  all_ready, next_phase_after_prechecks, with_control_plane, without_hold, begin_upgrade, move_on,
  reconcile_prechecks, clear_hold, fail_with, by_child_phase, with_control_plane_child,
  reconcile_control_plane_upgrade,
}
use kubernetes_upgrade_opera.Upgrade.Course.{
  course, to_phase, is_new, Step, waits, begins, checks_control_plane, checks_workers,
  control_plane_done, fails,
}
use kubernetes_upgrade_opera.Upgrade.Lawful.{
  AllReady, Current, ControlPlaneChild, guards_of, Released, Lawful,
}

-- The phase behind Prechecks, by whether a discovered group is the control plane's.
data Route (groups : List DiscoveredGroupStatus) : UpgradePhase → Type 0 where
  has_one : Route groups UpgradePhase.control_plane_upgrade
  has_none : All (λ g. g.role ≡ worker) groups → Route groups UpgradePhase.workers_upgrade

Route-behind :
    (g : DiscoveredGroupStatus) (groups : List DiscoveredGroupStatus) (phase : UpgradePhase)
    (role : Role)
    → g.role ≡ role
    → Route groups phase
    → Route
        (g ∷ groups)
        (elim role [ control_plane ↦ UpgradePhase.control_plane_upgrade | worker ↦ phase ])
Route-behind g groups phase control_plane e n = has_one
Route-behind g groups phase worker e has_one = has_one
Route-behind g groups phase worker e (has_none all) = has_none (e, all)

next_phase_after_prechecks-Route :
    (groups : List DiscoveredGroupStatus) → Route groups (next_phase_after_prechecks groups)
unfolding next_phase_after_prechecks
next_phase_after_prechecks-Route [] = has_none tt
next_phase_after_prechecks-Route (g ∷ groups) =
    Route-behind g groups _ g.role refl (next_phase_after_prechecks-Route groups)

module _ (S : Semver) (env : UpgradeEnv) (ku : KubernetesUpgrade) where
  pub begin_upgrade-Lawful :
      is_new ku.status.phase ≡ true → Ensures (Lawful S env ku) (begin_upgrade env ku) Any
  unfolding begin_upgrade
  begin_upgrade-Lawful new =
      Ensures-bind _ _ (Ensures-write_upgrade_status env _ (refl, inr (begins new)))
        (λ _ _. Ensures-pure _ tt)

  pub move_on-Lawful :
      (phase : UpgradePhase) (status : KubernetesUpgradeStatus)
      → Step S ku.spec (guards_of S env ku) (course ku.status) (to_phase phase (course status))
      → Ensures (Lawful S env ku) (move_on env phase (record ku { status = status })) Any
  unfolding move_on
  move_on-Lawful phase status step =
      Ensures-bind _ _ (Ensures-write_upgrade_status env _ (refl, inr step))
        (λ _ _. Ensures-pure _ tt)

  checks :
      (phase : UpgradePhase) (nodes : List Node)
      → ku.status.phase ≡ UpgradePhase.prechecks
      → AllReady env nodes
      → Route ku.status.discovered_groups phase
      → Step S ku.spec (guards_of S env ku) (course ku.status) (to_phase phase (course ku.status))
  checks _ nodes e ready has_one = checks_control_plane e (nodes, ready)
  checks _ nodes e ready (has_none all) = checks_workers e (nodes, ready) all

  when_ready :
      (nodes : List Node) (b : Bool)
      → all_ready nodes ≡ b
      → (h : History) × (env.cluster_nodes h ≡ found nodes)
      → ku.status.phase ≡ UpgradePhase.prechecks
      → Ensures
          (Lawful S env ku)
          (if b
            then move_on env (next_phase_after_prechecks ku.status.discovered_groups) ku
            else pure (requeue_after 15))
          Any
  when_ready nodes true ready read e = move_on-Lawful _ ku.status (
      checks _ nodes e (read, ready) (next_phase_after_prechecks-Route ku.status.discovered_groups))
  when_ready nodes false ready read e = Ensures-pure _ tt

  pub reconcile_prechecks-Lawful :
      ku.status.phase ≡ UpgradePhase.prechecks
      → Ensures (Lawful S env ku) (reconcile_prechecks env ku) Any
  unfolding reconcile_prechecks
  reconcile_prechecks-Lawful e =
      Ensures-bind _ _ (Ensures-in_context _ _ (Ensures-read_nodes env tt))
        (λ nodes read. when_ready nodes (all_ready nodes) refl read e)

  pub fail_with-Lawful :
      (name : String) (child : NodeGroupUpgrade) (status : KubernetesUpgradeStatus)
      → Step S ku.spec
          (guards_of S env ku)
          (course ku.status)
          (to_phase UpgradePhase.failed (course status))
      → Ensures (Lawful S env ku) (fail_with env name child (record ku { status = status })) Any
  unfolding fail_with
  fail_with-Lawful name child status step =
      Ensures-bind _ _ (Ensures-write_upgrade_status env _ (refl, inr step))
        (λ _ _. Ensures-pure _ tt)

  -- What the code goes on with is the child when its hold has been cleared.
  pub clear_hold-Current :
      (child : NodeGroupUpgrade)
      → Released env ku (without_hold child)
      → Ensures (Lawful S env ku) (clear_hold env child) (Current env child)
  unfolding clear_hold
  clear_hold-Current child allowed = by_hold child.spec.hold refl
    where
      by_hold :
          (b : Bool)
          → child.spec.hold ≡ b
          → Ensures
              (Lawful S env ku)
              (if b then write_release env (without_hold child) else pure child)
              (Current env child)
      by_hold true e =
          Ensures-weaken _ (λ now shown. inr shown) (Ensures-write_release env _ allowed)
      by_hold false e = Ensures-pure _ (inl (e, refl))

  module _ (phase : ku.status.phase ≡ UpgradePhase.control_plane_upgrade)
      (child now : NodeGroupUpgrade) (read : ControlPlaneChild env ku (found child))
      (current : Current env child now) where
    still_waits :
        (version : String)
        → now.status.phase ≢ GroupPhase.complete
        → now.status.phase ≢ GroupPhase.failed
        → Ensures
            (Lawful S env ku)
            (write_upgrade_status env (with_control_plane now version ku)
              >> pure (requeue_after 10))
            Any
    unfolding with_control_plane
    still_waits version going sound =
        Ensures-bind _ _
          (Ensures-write_upgrade_status env _
            (refl, inr (waits phase (child, now, read, current, going, sound))))
          (λ _ _. Ensures-pure _ tt)

    by_child_phase-Lawful :
        (p : GroupPhase) (version : String)
        → now.status.phase ≡ p
        → Ensures
            (Lawful S env ku)
            (by_child_phase env p now (with_control_plane now version ku))
            Any
    unfolding by_child_phase with_control_plane
    by_child_phase-Lawful GroupPhase.complete version e =
        move_on-Lawful _ (with_control_plane now version ku).status
          (control_plane_done phase (inr (child, now, read, current, e)))
    by_child_phase-Lawful GroupPhase.failed version e =
        fail_with-Lawful _ now (with_control_plane now version ku).status
          (fails (inl phase) (inl (child, now, read, current, e)))
    by_child_phase-Lawful _ version e =
        still_waits version (λ f. absurd (cc (e, f))) (λ f. absurd (cc (e, f)))

  module _ (phase : ku.status.phase ≡ UpgradePhase.control_plane_upgrade) where
    with_child-Lawful :
        (a : Answer NodeGroupUpgrade)
        → ControlPlaneChild env ku a
        → Ensures (Lawful S env ku) (with_control_plane_child env ku a) Any
    unfolding with_control_plane_child
    with_child-Lawful (refused not_found) read =
        move_on-Lawful _ ku.status (control_plane_done phase (inl read))
    with_child-Lawful (refused already_exists) read = Ensures-raise _
    with_child-Lawful (refused conflict) read = Ensures-raise _
    with_child-Lawful (refused too_many_requests) read = Ensures-raise _
    with_child-Lawful (refused other) read = Ensures-raise _
    with_child-Lawful (found child) read =
        Ensures-bind _ _
          (Ensures-in_context _ _ (clear_hold-Current child (inr (phase, (child, read, refl)))))
          (λ now current. Ensures-bind _ _ (Ensures-lift _ (anything _)) (λ hop _.
            by_child_phase-Lawful phase child now read current now.status.phase hop.to_version
              refl))

    pub reconcile_control_plane-Lawful :
        Ensures (Lawful S env ku) (reconcile_control_plane_upgrade env ku) Any
    unfolding reconcile_control_plane_upgrade
    reconcile_control_plane-Lawful =
        Ensures-bind _ _ (Ensures-read_group env _ _ tt) with_child-Lawful
