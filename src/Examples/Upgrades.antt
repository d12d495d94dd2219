-- ===== src/Examples/Upgrades.antt =====
-- Reconciles of a cluster upgrade of one worker node, from v1.29.0 to v1.30.0, and the webhook.
use mathlib.Core.List.{Memᴰ}
use mathlib.Core.List.Memᴰ.{head, tail}
use kubernetes_upgrade_opera.Base.{
  ◌⊎◌, ℕ, zero, suc, ◌^◌, ◌≤◌, pos, Bool, true, false, Option, none, some, [], ◌∷◌, ◌≡◌, ◌≢◌, refl,
  inl, inr, ◌↔◌, arith, get_elem?, length, has_prefix, text_lt, trim_prefix, trim_space, ◌+ℤ◌,
  int32,
}
use kubernetes_upgrade_opera.Result.{not_found, ok}
use kubernetes_upgrade_opera.Core.{Node, lookup, label_or_empty}
use kubernetes_upgrade_opera.Types.{
  empty, GroupPhase, UpgradePhase, NodeGroupUpgrade, KubernetesUpgrade,
}
use kubernetes_upgrade_opera.Version.{Reads, compare_versions, parse_version}
use kubernetes_upgrade_opera.Version.Sample.{sample, read_numbers, order, Numbers}
use kubernetes_upgrade_opera.Cluster.{
  Call, apply_group, release_group, update_upgrade_status, upgrade_call, History, found, refused,
  pure, raise, lift, in_context, ◌>>=◌,
}
use kubernetes_upgrade_opera.Cluster.Rules.{Any, Ensures}
use kubernetes_upgrade_opera.Upgrade.Calls.{UpgradeEnv}
use kubernetes_upgrade_opera.Upgrade.Course.{course, Step}
use kubernetes_upgrade_opera.Upgrade.Course.InRange.{InRange}
use kubernetes_upgrade_opera.Upgrade.Lawful.{OnlyMarked, guards_of, Released}
use kubernetes_upgrade_opera.Upgrade.Lease.Laws.{OnLease, Granted, acquire_lease-Granted}
use kubernetes_upgrade_opera.Upgrade.Lease.{acquire_lease}
use kubernetes_upgrade_opera.Upgrade.Reconcile.{reconcile_upgrade, holder_id}
use kubernetes_upgrade_opera.Upgrade.Promises.{
  calls_of, Careful, reconcile_upgrade-Step, reconcile_upgrade-Careful, reconcile_upgrade-Released,
}
use kubernetes_upgrade_opera.Upgrade.Idle.{
  OnlyMarks, OnlyLease, reconcile_upgrade-OnlyMarks, reconcile_upgrade-OnlyLease,
}
use kubernetes_upgrade_opera.Upgrade.Stored.{
  StoredUpgrade, created, reconciled, StoredUpgrade-InRange,
}
use kubernetes_upgrade_opera.Upgrade.Lease.{lease_of}
use kubernetes_upgrade_opera.Upgrade.Lease.Exclusion.{
  Attempt, Contest, start, reads, writes, Reached, at_start, and_then, Spaced, Reached-Spaced,
}
use kubernetes_upgrade_opera.Webhook.{validate}
use kubernetes_upgrade_opera.Webhook.Laws.{Admitted, validate_iff}
use kubernetes_upgrade_opera.Examples.Samples.{sample_node, sample_group}
use kubernetes_upgrade_opera.Base.{int64, add64, sub64, bits64, decimal, decimal_int, ◌-ℤ◌}
use kubernetes_upgrade_opera.Batches.{flag, set_flag}
use kubernetes_upgrade_opera.Children.{
  resolve_strategy, default_strategy_for_provider, is_strategy_allowed_for_provider,
  prune_candidates, desired_names, pruned, is_safe_to_prune,
}
use kubernetes_upgrade_opera.Discovery.{classify_role, classify_provider, group_name}
use kubernetes_upgrade_opera.Discovery.Groups.{
  discover_groups, selector_of, collect, finish_groups, add_node, put_node, sort_names, insert_name,
  insert_group,
}
use kubernetes_upgrade_opera.Discovery.Versions.{
  oldest_version_across_groups, group_versions, group_current_version, oldest_in, older_of,
  member_versions, version_of,
}
use kubernetes_upgrade_opera.NodeState.{is_node_ready, ready_condition, ready_in}
use kubernetes_upgrade_opera.StepPlan.{
  compute_step_plan, plan_by_order, plan_hops, hops, version_text, next_group_target,
  target_by_order,
}
use kubernetes_upgrade_opera.Upgrade.Calls.{
  read_nodes, read_version, read_time, read_lease, write_new_lease, write_lease, remove_lease,
  read_group, read_groups, write_group, write_release, remove_group, write_upgrade,
  write_upgrade_status,
}
use kubernetes_upgrade_opera.Upgrade.Child.{
  find_override, build_desired_child, desired_spec, child_name, truncate_label_value,
  first_characters, batch_fields, drain_of, force_pause, explicitly_confirmed, asked_pause,
}
use kubernetes_upgrade_opera.Upgrade.Discovering.{
  reconcile_discovering, apply_children, discovered_upgrade, risk_condition,
}
use kubernetes_upgrade_opera.Upgrade.Discovering.Planning.{
  ensure_plan, starting_version, plan_from, store_plan, is_panic, needs_plan, downgrade_allowed,
}
use kubernetes_upgrade_opera.Upgrade.Discovering.Prune.{
  prune_orphaned_children, prune_each, prune_child, by_group_name, group_label, existing_children,
  deletion,
}
use kubernetes_upgrade_opera.Upgrade.Discovering.Visit.{
  visit_groups, visit_group, group_target, visit_child, apply_child, group_status, is_skipped,
  count_risk, requested_replace,
}
use kubernetes_upgrade_opera.Upgrade.Lease.{
  claim, is_held, is_held_by, is_stale, act_on, after_create, after_update,
}
use kubernetes_upgrade_opera.Upgrade.Phases.{
  begin_upgrade, reconcile_prechecks, all_ready, next_phase_after_prechecks, move_on,
  reconcile_workers_upgrade, visit_workers, clear_hold, worker_state, after_workers,
}
use kubernetes_upgrade_opera.Upgrade.Reconcile.{
  contains_finalizer, reconcile_running, write_condition_if, unless_paused, is_terminal, with_lease,
  upgrade_by_phase, set_paused_condition, upgrade_paused_condition,
}
use kubernetes_upgrade_opera.Upgrade.Status.{step_at}
use kubernetes_upgrade_opera.Version.{minor_diff}

abbrev old_node : Node
old_node = record (sample_node "a") { kubelet_version = "v1.29.0" }

-- The child of the worker node, held, and as it is when it has been released and is done.
abbrev held_child : NodeGroupUpgrade
held_child =
    let g = sample_group ("a" ∷ []) false in record g { spec = record g.spec { hold = true } }

abbrev ended_child : NodeGroupUpgrade → NodeGroupUpgrade
ended_child ng = record ng { status = record ng.status { phase = GroupPhase.complete } }

-- A cluster that answers every call without an error, with or without a lease of another upgrade.
abbrev upgrade_env : Bool → UpgradeEnv
upgrade_env taken = record {
  cluster_nodes = λ h. found (old_node ∷ []);
  git_version = λ h. some "v1.29.0";
  lease_at = λ h. elim taken [
    | true ↦ found (record { holder_identity = some "other/upgrade"; renew_time = some (pos 0) })
    | false ↦ refused not_found
  ];
  create_reply = λ h l. none;
  update_reply = λ h l. none;
  delete_lease_reply = λ h. none;
  group_at = λ h namespace name. refused not_found;
  groups_of = λ h namespace parent. found (held_child ∷ []);
  applied = λ h ng. found ng;
  released = λ h ng. found (ended_child ng);
  delete_group_reply = λ h ng. none;
  upgrade_reply = λ h ku. none;
  upgrade_status_reply = λ h ku. none;
  clock = λ h. pos 0;
  set_condition = λ conditions c. (conditions, false);
  set_owner = λ ku ng. ok tt;
  parse_selector = λ s. none;
  to_lower = λ s. s;
}

abbrev new_upgrade : Bool → KubernetesUpgrade
new_upgrade paused = record {
  name = "upgrade";
  namespace = "ops";
  generation = pos 1;
  deleting = false;
  finalizers = "upgrade.k8s-upgrade-operator/finalizer" ∷ [];
  spec = record {
    target_version = "v1.30.0";
    paused = paused;
    scope = none;
    defaults = none;
    group_overrides = [];
    safety = none;
  };
  status = record {
    phase = UpgradePhase.unset;
    observed_generation = pos 0;
    conditions = [];
    starting_version = "";
    step_plan = [];
    current_step_index = pos 0;
    control_plane = record {
      total_nodes = pos 0;
      upgraded_nodes = pos 0;
      current_node = "";
      version = "";
    };
    discovered_groups = [];
    message = empty;
  };
}

get_elem?-Memᴰ : (c : Call) (h : History) (i : ℕ) → get_elem? h i ≡ some c → Memᴰ c h
get_elem?-Memᴰ c [] i e = absurd cc
get_elem?-Memᴰ c (d ∷ h) zero e = head cc
get_elem?-Memᴰ c (d ∷ h) (suc i) e = tail (get_elem?-Memᴰ c h i e)

-- The call of a reconcile at a place, the newest first.
abbrev call_at : KubernetesUpgrade → ℕ → Option Call
unfolding reconcile_upgrade
call_at ku i = get_elem? (calls_of sample (upgrade_env false) ku) i

abbrev upgrade_in : KubernetesUpgrade → Option Call → KubernetesUpgrade
upgrade_in ku (some (upgrade_call (update_upgrade_status ku'))) = ku'
upgrade_in ku _ = ku

abbrev group_in : Option Call → NodeGroupUpgrade
group_in (some (upgrade_call (apply_group ng))) = ng
group_in (some (upgrade_call (release_group ng))) = ng
group_in _ = held_child

-- What the newest status update of a reconcile stores.
abbrev step_of : KubernetesUpgrade → KubernetesUpgrade
unfolding call_at
step_of ku = upgrade_in ku (call_at ku 0)

abbrev begun : KubernetesUpgrade
unfolding step_of
begun = step_of (new_upgrade false)

abbrev discovered : KubernetesUpgrade
unfolding step_of begun
discovered = step_of begun

abbrev checked : KubernetesUpgrade
unfolding step_of discovered
checked = step_of discovered

-- What the runs compute to.
record Runs : Type 0 where
  begins : call_at (new_upgrade false) 0 ≡ some (upgrade_call (update_upgrade_status begun))
  discovers : call_at begun 0 ≡ some (upgrade_call (update_upgrade_status discovered))
  applies : call_at begun 3 ≡ some (upgrade_call (apply_group (group_in (call_at begun 3))))
  checks : call_at discovered 0 ≡ some (upgrade_call (update_upgrade_status checked))
  to_workers : checked.status.phase ≡ UpgradePhase.workers_upgrade
  releases : call_at checked 1 ≡ some (upgrade_call (release_group (group_in (call_at checked 1))))
  one_hop : length discovered.status.step_plan ≡ 1
  none_yet : length begun.status.step_plan ≡ 0

runs : Runs
unfolding reconcile_upgrade contains_finalizer reconcile_running write_condition_if unless_paused
    is_terminal holder_id acquire_lease claim is_held is_held_by is_stale act_on after_create
    after_update with_lease upgrade_by_phase begin_upgrade reconcile_discovering discover_groups
    selector_of collect finish_groups add_node classify_role classify_provider group_name put_node
    sort_names insert_name insert_group text_lt ensure_plan starting_version
    oldest_version_across_groups group_versions group_current_version oldest_in older_of
    member_versions version_of plan_from store_plan is_panic needs_plan downgrade_allowed
    compute_step_plan plan_by_order plan_hops hops version_text minor_diff compare_versions
    parse_version read_numbers order trim_prefix trim_space apply_children step_at visit_groups
    visit_group group_target next_group_target target_by_order visit_child apply_child group_status
    is_skipped count_risk requested_replace find_override build_desired_child desired_spec
    child_name truncate_label_value first_characters batch_fields drain_of force_pause
    explicitly_confirmed asked_pause resolve_strategy default_strategy_for_provider
    is_strategy_allowed_for_provider discovered_upgrade risk_condition prune_orphaned_children
    prune_each prune_child by_group_name group_label existing_children prune_candidates
    desired_names pruned is_safe_to_prune flag set_flag deletion lookup label_or_empty
    reconcile_prechecks all_ready is_node_ready ready_condition ready_in next_phase_after_prechecks
    move_on reconcile_workers_upgrade visit_workers clear_hold worker_state after_workers read_nodes
    read_version read_time read_lease write_new_lease write_lease remove_lease read_group
    read_groups write_group write_release remove_group write_upgrade write_upgrade_status pure raise
    lift in_context ◌>>=◌ has_prefix int32 int64 add64 sub64 bits64 decimal decimal_int
    set_paused_condition upgrade_paused_condition ◌+ℤ◌ ◌-ℤ◌
runs = record {
  begins = refl;
  discovers = refl;
  applies = refl;
  checks = refl;
  to_workers = refl;
  releases = refl;
  one_hop = refl;
  none_yet = refl;
}

made :
    (ku : KubernetesUpgrade) (i : ℕ) (c : Call)
    → call_at ku i ≡ some c
    → Memᴰ c (calls_of sample (upgrade_env false) ku)
unfolding call_at
made ku i c e = get_elem?-Memᴰ c _ i e

reconcile_upgrade-Step_example :
    (discovered ≡ record begun { status = discovered.status })
    × (OnlyMarked begun discovered
        ⊎ Step sample begun.spec
            (guards_of sample (upgrade_env false) begun)
            (course begun.status)
            (course discovered.status))
reconcile_upgrade-Step_example =
    reconcile_upgrade-Step sample (upgrade_env false) begun discovered
      (made begun 0 _ runs.discovers)

reconcile_upgrade-Careful_example : Careful (upgrade_env false) begun (group_in (call_at begun 3))
reconcile_upgrade-Careful_example =
    reconcile_upgrade-Careful sample (upgrade_env false) begun (group_in (call_at begun 3))
      (made begun 3 _ runs.applies)

reconcile_upgrade-Released_example :
    Released (upgrade_env false) checked (group_in (call_at checked 1))
reconcile_upgrade-Released_example =
    reconcile_upgrade-Released sample (upgrade_env false) checked (group_in (call_at checked 1))
      (made checked 1 _ runs.releases)

few_steps : (n k : ℕ) → n ≡ k → k ≤ 1 → n ≤ 2 ^ 31
few_steps n k e h = omega arith

discovered-StoredUpgrade : StoredUpgrade sample discovered
discovered-StoredUpgrade =
    reconciled (upgrade_env false) begun discovered
      (reconciled (upgrade_env false) (new_upgrade false) begun
        (created (new_upgrade false) refl refl) (made (new_upgrade false) 0 _ runs.begins)
        (few_steps _ 0 runs.none_yet (omega arith)))
      (made begun 0 _ runs.discovers) (few_steps _ 1 runs.one_hop (omega arith))

StoredUpgrade-InRange_example : InRange (course discovered.status)
StoredUpgrade-InRange_example = StoredUpgrade-InRange sample discovered discovered-StoredUpgrade

reconcile_upgrade-OnlyMarks_example :
    Ensures
      (OnlyMarks (new_upgrade true))
      (reconcile_upgrade sample (upgrade_env false) (new_upgrade true))
      Any
reconcile_upgrade-OnlyMarks_example =
    reconcile_upgrade-OnlyMarks sample (upgrade_env false) (new_upgrade true) refl refl

-- Another upgrade holds a fresh lease.
denied :
    (h : History) → (acquire_lease (upgrade_env true) (holder_id (new_upgrade false)) h).0 ≢ ok true
unfolding acquire_lease claim is_held is_held_by is_stale act_on ◌>>=◌ read_time read_lease lift
    holder_id ◌-ℤ◌
denied h e = absurd cc

reconcile_upgrade-OnlyLease_example :
    Ensures
      (OnlyLease (upgrade_env true) (new_upgrade false))
      (reconcile_upgrade sample (upgrade_env true) (new_upgrade false))
      Any
reconcile_upgrade-OnlyLease_example =
    reconcile_upgrade-OnlyLease sample (upgrade_env true) (new_upgrade false) refl denied

acquire_lease-Granted_example :
    Ensures
      (OnLease (upgrade_env false) "ops/upgrade")
      (acquire_lease (upgrade_env false) "ops/upgrade")
      (Granted (upgrade_env false) "ops/upgrade")
acquire_lease-Granted_example = acquire_lease-Granted (upgrade_env false) "ops/upgrade"

abbrev older_numbers : Numbers
older_numbers = record { major = 1; minor = 29; patch = 0 }

abbrev wanted : Numbers
wanted = record { major = 1; minor = 30; patch = 0 }

reads_older : Reads sample "v1.29.0" older_numbers
unfolding parse_version trim_prefix trim_space read_numbers
reads_older = record {
  accepted = refl;
  major_small = omega arith;
  minor_small = omega arith;
  patch_small = omega arith;
}

reads_wanted : Reads sample "v1.30.0" wanted
unfolding parse_version trim_prefix trim_space read_numbers
reads_wanted = record {
  accepted = refl;
  major_small = omega arith;
  minor_small = omega arith;
  patch_small = omega arith;
}

validate_iff_example :
    (validate sample (new_upgrade false) (some "v1.29.0") ≡ ok tt)
    ↔ Admitted (order wanted older_numbers) false 1 29 1 30
unfolding downgrade_allowed
validate_iff_example = validate_iff (new_upgrade false) reads_wanted reads_older

-- Two upgrades: the first takes the lease, and the second takes it when it is stale.
abbrev first_read : Contest
first_read = record start {
  attempts = record { id = "a"; time = 0; answer = refused not_found; version = 0 } ∷ [];
}

abbrev first_held : Contest
first_held = record first_read {
  lease = some (lease_of "a" (pos 0));
  version = 1;
  grants = ("a", 0) ∷ [];
}

abbrev second_attempt : Attempt
second_attempt = record {
  id = "b";
  time = 400000000000;
  answer = found (lease_of "a" (pos 0));
  version = 1;
}

abbrev second_read : Contest
second_read = record first_held { attempts = second_attempt ∷ first_held.attempts }

abbrev second_held : Contest
second_held = record second_read {
  lease = some (lease_of "b" (pos 400000000000));
  version = 2;
  grants = ("b", 400000000000) ∷ first_held.grants;
}

second_held-Reached : Reached second_held
unfolding claim is_held is_held_by is_stale ◌-ℤ◌
second_held-Reached =
    and_then
      (and_then
        (and_then (and_then at_start (reads "a" 0 refl)) (writes _ _ (head refl) refl (inl refl)))
        (reads "b" 400000000000 refl))
      (writes second_attempt _ (head refl) refl (inr refl))

Reached-Spaced_example : Spaced (("b", 400000000000) ∷ ("a", 0) ∷ [])
Reached-Spaced_example = Reached-Spaced second_held second_held-Reached
