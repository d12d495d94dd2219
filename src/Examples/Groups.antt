-- ===== src/Examples/Groups.antt =====
-- Node groups driven through whole upgrades against the sample cluster.
use mathlib.Core.List.{Memᴰ}
use mathlib.Core.List.Memᴰ.{head, tail}
use kubernetes_upgrade_opera.Base.{
  pos, int32, ◌≤ℤ◌, ◌-ℤ◌, ◌+ℤ◌, String, ◌≡◌, ◌≢◌, refl, Bool, true, false, [], ◌∷◌, All, inl,
  length, str_eq, eq_iff, trim_prefix, trim_space,
}
use kubernetes_upgrade_opera.Result.{ok}
use kubernetes_upgrade_opera.Batches.{
  resolve_concurrency, unclamped, by_unavailable, clamp, next_batch, select, flag, set_flag,
}
use kubernetes_upgrade_opera.Types.{GroupPhase, NodeGroupUpgrade}
use kubernetes_upgrade_opera.Version.Sample.{sample, read_numbers, order}
use kubernetes_upgrade_opera.Version.{compare_versions, parse_version}
use kubernetes_upgrade_opera.Cluster.{
  get_node, patch_unschedulable, list_pods, evict, delete_pod, delete_node, update_status,
  read_clock, record_event, adapter_precheck, adapter_begin, adapter_poll, adapter_verify,
  adapter_call, upgrade_call, executor_call, History, pure, lift, ◌>>=◌, write_status, now, attempt,
  in_context, read_node, read_pods, write_unschedulable, note,
}
use kubernetes_upgrade_opera.Cluster.Rules.{Any, Ensures}
use kubernetes_upgrade_opera.Adapter.{get_adapter}
use kubernetes_upgrade_opera.NodeGroup.Progress.{
  active_batch, next_batch_for, done_flags, active_flags, entry, change_named, find_node_progress,
  change_at, init_node_progress, is_active, is_set, needs_begin,
}
use kubernetes_upgrade_opera.NodeState.{
  cordon, uncordon, set_unschedulable, fetch_node, is_node_ready, ready_condition, ready_in,
  node_is_at_version,
}
use kubernetes_upgrade_opera.Drain.{drain_node, drain_pods, remaining}
use kubernetes_upgrade_opera.NodeGroup.Upgrading.{
  reconcile_upgrading, active_batch_nodes, skip_upgraded, mark_upgrading, take_results,
}
use kubernetes_upgrade_opera.NodeGroup.Verifying.{
  reconcile_verifying, check_node, all_at_target, complete_all,
}
use kubernetes_upgrade_opera.NodeGroup.Progress.Changes.{Distinct, entry_names}
use kubernetes_upgrade_opera.NodeGroup.Progress.Counts.{is_completed, active_count, completed_count}
use kubernetes_upgrade_opera.NodeGroup.Draining.{done, reconcile_draining, start_all, drain_all}
use kubernetes_upgrade_opera.NodeGroup.Invariant.{Writes, has_begun}
use kubernetes_upgrade_opera.NodeGroup.Reconcile.{
  reconcile, unless_held, by_phase, needs_reset, reconcile_pending, initialised,
}
use kubernetes_upgrade_opera.NodeGroup.Reconcile.Keeps.{reconcile-Writes}
use kubernetes_upgrade_opera.NodeGroup.Reconcile.Held.{OnlyConditions, reconcile-OnlyConditions}
use kubernetes_upgrade_opera.NodeGroup.Stored.{
  Stored, Stored-Inv, created, reconciled, Stored-limit, Stored-complete, Stored-counted,
}
use kubernetes_upgrade_opera.Examples.Samples.{
  sample_scaled, sample_env, sample_registry, sample_quiet, sample_group,
}

-- The status that was written last.
abbrev newest : NodeGroupUpgrade → History → NodeGroupUpgrade
newest ng [] = ng
newest ng (update_status ng' ∷ h) = ng'
newest ng (_ ∷ h) = newest ng h

apart : (a b : String) → str_eq a b ≡ false → a ≢ b
apart a b h e = absurd (cc (h, (eq_iff a b).1 e))

one_name : Distinct ("a" ∷ [])
one_name = (tt, tt)

two_names : Distinct ("a" ∷ "b" ∷ [])
two_names = ((apart "a" "b" refl, tt), (tt, tt))

-- The calls of a reconcile of the group.
abbrev calls : NodeGroupUpgrade → History
unfolding reconcile
calls ng = (reconcile sample sample_env sample_registry ng []).1

-- What the last write of a reconcile of the group stores.
abbrev step : NodeGroupUpgrade → NodeGroupUpgrade
unfolding calls
step ng = newest ng (calls ng)

abbrev has_update : History → Bool
has_update [] = false
has_update (update_status ng ∷ h) = true
has_update (_ ∷ h) = has_update h

newest-Memᴰ :
    (ng : NodeGroupUpgrade) (h : History)
    → has_update h ≡ true
    → Memᴰ (update_status (newest ng h)) h
newest-Memᴰ ng [] e = absurd cc
newest-Memᴰ ng (get_node name ∷ h) e = tail (newest-Memᴰ ng h e)
newest-Memᴰ ng (patch_unschedulable name b ∷ h) e = tail (newest-Memᴰ ng h e)
newest-Memᴰ ng (list_pods name ∷ h) e = tail (newest-Memᴰ ng h e)
newest-Memᴰ ng (evict pod ∷ h) e = tail (newest-Memᴰ ng h e)
newest-Memᴰ ng (delete_pod namespace name ∷ h) e = tail (newest-Memᴰ ng h e)
newest-Memᴰ ng (update_status ng' ∷ h) e = head refl
newest-Memᴰ ng (read_clock ∷ h) e = tail (newest-Memᴰ ng h e)
newest-Memᴰ ng (record_event name ∷ h) e = tail (newest-Memᴰ ng h e)
newest-Memᴰ ng (adapter_precheck ∷ h) e = tail (newest-Memᴰ ng h e)
newest-Memᴰ ng (adapter_begin names ∷ h) e = tail (newest-Memᴰ ng h e)
newest-Memᴰ ng (adapter_poll names ∷ h) e = tail (newest-Memᴰ ng h e)
newest-Memᴰ ng (adapter_verify ∷ h) e = tail (newest-Memᴰ ng h e)
newest-Memᴰ ng (delete_node name ∷ h) e = tail (newest-Memᴰ ng h e)
newest-Memᴰ ng (adapter_call name ∷ h) e = tail (newest-Memᴰ ng h e)
newest-Memᴰ ng (upgrade_call c ∷ h) e = tail (newest-Memᴰ ng h e)
newest-Memᴰ ng (executor_call c ∷ h) e = tail (newest-Memᴰ ng h e)

Stored-step :
    (ng : NodeGroupUpgrade)
    → Stored sample sample_scaled sample_registry ng
    → has_update (calls ng) ≡ true
    → Stored sample sample_scaled sample_registry (step ng)
unfolding step calls
Stored-step ng s e =
    reconciled sample_env ng (newest ng (calls ng)) s refl (newest-Memᴰ ng (calls ng) e)

-- Two nodes, and what two reconciles make of them: the first node is upgrading.
abbrev pair : NodeGroupUpgrade
pair = sample_group ("a" ∷ "b" ∷ []) false

abbrev started_pair : NodeGroupUpgrade
unfolding step
started_pair = step (step pair)

-- One node, and what five reconciles make of it: it is upgraded, and the group Complete.
abbrev solo : NodeGroupUpgrade
solo = sample_group ("a" ∷ []) false

abbrev solo_draining : NodeGroupUpgrade
unfolding step
solo_draining = step solo

abbrev solo_upgrading : NodeGroupUpgrade
unfolding step
solo_upgrading = step solo_draining

abbrev solo_verifying : NodeGroupUpgrade
unfolding step
solo_verifying = step solo_upgrading

abbrev solo_verified : NodeGroupUpgrade
unfolding step
solo_verified = step solo_verifying

abbrev solo_complete : NodeGroupUpgrade
unfolding step
solo_complete = step solo_verified

-- What the runs compute to.
record Runs : Type 0 where
  pair_writes : has_update (calls pair) ≡ true
  pair_writes_again : has_update (calls (step pair)) ≡ true
  pair_begun : has_begun started_pair.status.phase ≡ true
  pair_limit :
      resolve_concurrency sample_scaled
        (pos (length started_pair.spec.nodes))
        started_pair.spec.batch_size
        started_pair.spec.max_unavailable
      ≡ ok (pos 1)
  pair_active : active_count started_pair.status.node_progress ≡ 1
  solo_1 : has_update (calls solo) ≡ true
  solo_2 : has_update (calls solo_draining) ≡ true
  solo_3 : has_update (calls solo_upgrading) ≡ true
  solo_4 : has_update (calls solo_verifying) ≡ true
  solo_5 : has_update (calls solo_verified) ≡ true
  solo_ends : solo_complete.status.phase ≡ GroupPhase.complete
  solo_counts : completed_count solo_complete.status.node_progress ≡ 1

runs : Runs
unfolding active_count is_completed is_active is_set reconcile unless_held by_phase needs_reset
    reconcile_pending initialised init_node_progress ◌>>=◌ pure lift write_status now attempt
    in_context read_node read_pods write_unschedulable note reconcile_draining reconcile_upgrading
    reconcile_verifying active_batch next_batch_for done_flags active_flags next_batch select flag
    set_flag resolve_concurrency unclamped by_unavailable clamp ◌-ℤ◌ ◌+ℤ◌ int32 entry change_named
    find_node_progress change_at start_all drain_all cordon uncordon set_unschedulable fetch_node
    drain_node drain_pods remaining skip_upgraded mark_upgrading take_results needs_begin
    active_batch_nodes node_is_at_version is_node_ready ready_condition ready_in check_node
    all_at_target complete_all compare_versions parse_version read_numbers order trim_prefix
    trim_space completed_count get_adapter
runs = record {
  pair_writes = refl;
  pair_writes_again = refl;
  pair_begun = refl;
  pair_limit = refl;
  pair_active = refl;
  solo_1 = refl;
  solo_2 = refl;
  solo_3 = refl;
  solo_4 = refl;
  solo_5 = refl;
  solo_ends = refl;
  solo_counts = refl;
}

started_pair-Stored : Stored sample sample_scaled sample_registry started_pair
unfolding started_pair
started_pair-Stored =
    Stored-step (step pair) (Stored-step pair (created pair two_names refl refl) runs.pair_writes)
      runs.pair_writes_again

solo_complete-Stored : Stored sample sample_scaled sample_registry solo_complete
unfolding solo_complete solo_verified solo_verifying solo_upgrading solo_draining
solo_complete-Stored =
    Stored-step solo_verified
      (Stored-step solo_verifying
        (Stored-step solo_upgrading
          (Stored-step solo_draining
            (Stored-step solo (created solo one_name refl refl) runs.solo_1) runs.solo_2)
          runs.solo_3)
        runs.solo_4)
      runs.solo_5

Stored-limit_example : pos (active_count started_pair.status.node_progress) ≤ℤ pos 1
Stored-limit_example =
    Stored-limit sample sample_scaled sample_registry sample_quiet started_pair started_pair-Stored
      (pos 1) runs.pair_begun runs.pair_limit

Stored-complete_example :
    (entry_names solo_complete.status.node_progress ≡ solo_complete.spec.nodes)
    × All (λ np. is_completed np ≡ true) solo_complete.status.node_progress
Stored-complete_example =
    Stored-complete sample sample_scaled sample_registry sample_quiet solo_complete
      solo_complete-Stored runs.solo_ends

Stored-counted_example :
    started_pair.status.upgraded_nodes
    ≡ int32 (pos (completed_count started_pair.status.node_progress))
Stored-counted_example =
    Stored-counted sample sample_scaled sample_registry sample_quiet started_pair
      started_pair-Stored runs.pair_begun

reconcile-Writes_example :
    Ensures
      (Writes sample_scaled started_pair.spec)
      (reconcile sample sample_env sample_registry started_pair)
      Any
reconcile-Writes_example =
    reconcile-Writes sample sample_env sample_registry started_pair (sample_quiet started_pair.spec)
      (Stored-Inv sample sample_scaled sample_registry sample_quiet started_pair
        started_pair-Stored).0
      (Stored-Inv sample sample_scaled sample_registry sample_quiet started_pair
        started_pair-Stored).1

reconcile-OnlyConditions_example :
    Ensures
      (OnlyConditions (sample_group ("a" ∷ []) true))
      (reconcile sample sample_env sample_registry (sample_group ("a" ∷ []) true))
      (λ out. out ≡ done)
reconcile-OnlyConditions_example =
    reconcile-OnlyConditions sample sample_env sample_registry (sample_group ("a" ∷ []) true)
      (inl refl)
