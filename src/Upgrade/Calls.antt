-- ===== src/Upgrade/Calls.antt =====
-- The calls of the cluster upgrade controller, and what answers them.
--
-- A status update answers with the object that was written, which the code then goes on with; the
-- two patches answer with the group as it is stored, whose status may have changed meanwhile.
pub mod Rules
use kubernetes_upgrade_opera.Base.{String, Bool, Option, none, some, List, ◌∷◌}
use kubernetes_upgrade_opera.Result.{ApiError, Error, api, Result, ok, err, server_version}
use kubernetes_upgrade_opera.Core.{Time, Labels, LabelSelector, Node, Lease}
use kubernetes_upgrade_opera.Types.{Condition, NodeGroupUpgrade, KubernetesUpgrade}
use kubernetes_upgrade_opera.Cluster.{
  Call, read_clock, UpgradeCall, list_nodes, ask_version, get_lease, create_lease, update_lease,
  delete_lease, get_group, list_groups, apply_group, release_group, delete_group, update_upgrade,
  update_upgrade_status, upgrade_call, History, Answer, Run, of_answer, of_reply,
}

pub record UpgradeEnv : Type 0 where
  pub cluster_nodes : History → Answer (List Node)
  -- the `GitVersion` of the API server, or an error
  pub git_version : History → Option String
  pub lease_at : History → Answer Lease
  -- a write answers `none`, or its error
  pub create_reply : History → Lease → Option ApiError
  pub update_reply : History → Lease → Option ApiError
  pub delete_lease_reply : History → Option ApiError
  pub group_at : History → String → String → Answer NodeGroupUpgrade
  pub groups_of : History → String → String → Answer (List NodeGroupUpgrade)
  pub applied : History → NodeGroupUpgrade → Answer NodeGroupUpgrade
  pub released : History → NodeGroupUpgrade → Answer NodeGroupUpgrade
  pub delete_group_reply : History → NodeGroupUpgrade → Option ApiError
  pub upgrade_reply : History → KubernetesUpgrade → Option ApiError
  pub upgrade_status_reply : History → KubernetesUpgrade → Option ApiError
  pub clock : History → Time
  -- meta.SetStatusCondition: the new conditions, and whether they changed
  pub set_condition : List Condition → Condition → List Condition × Bool
  -- controllerutil.SetControllerReference, as far as it fails; the reference itself is not kept
  pub set_owner : KubernetesUpgrade → NodeGroupUpgrade → Result (Unit {0})
  -- metav1.LabelSelectorAsSelector with (labels.Selector).Matches; `none` is its error
  pub parse_selector : LabelSelector → Option (Labels → Bool)
  -- strings.ToLower
  pub to_lower : String → String

abbrev of_version : Option String → Result String
of_version none = err server_version
of_version (some v) = ok v

module _ (env : UpgradeEnv) where
  unfoldable pub read_nodes : Run (List Node)
  read_nodes h = (of_answer (env.cluster_nodes h), upgrade_call list_nodes ∷ h)

  -- r.DiscoveryClient.ServerVersion()
  unfoldable pub read_version : Run String
  read_version h = (of_version (env.git_version h), upgrade_call ask_version ∷ h)

  unfoldable pub read_time : Run Time
  read_time h = (ok (env.clock h), read_clock ∷ h)

  unfoldable pub read_lease : Run (Answer Lease)
  read_lease h = (ok (env.lease_at h), upgrade_call get_lease ∷ h)

  unfoldable pub write_new_lease : Lease → Run (Option ApiError)
  write_new_lease l h = (ok (env.create_reply h l), upgrade_call (create_lease l) ∷ h)

  unfoldable pub write_lease : Lease → Run (Option ApiError)
  write_lease l h = (ok (env.update_reply h l), upgrade_call (update_lease l) ∷ h)

  unfoldable pub remove_lease : Run (Unit {0})
  remove_lease h = (of_reply (env.delete_lease_reply h), upgrade_call delete_lease ∷ h)

  unfoldable pub read_group : String → String → Run (Answer NodeGroupUpgrade)
  read_group namespace name h =
      (ok (env.group_at h namespace name), upgrade_call (get_group namespace name) ∷ h)

  unfoldable pub read_groups : String → String → Run (List NodeGroupUpgrade)
  read_groups namespace parent h = (
    of_answer (env.groups_of h namespace parent),
    upgrade_call (list_groups namespace parent) ∷ h,
  )

  unfoldable pub write_group : NodeGroupUpgrade → Run NodeGroupUpgrade
  write_group ng h = (of_answer (env.applied h ng), upgrade_call (apply_group ng) ∷ h)

  unfoldable pub write_release : NodeGroupUpgrade → Run NodeGroupUpgrade
  write_release ng h = (of_answer (env.released h ng), upgrade_call (release_group ng) ∷ h)

  unfoldable pub remove_group : NodeGroupUpgrade → Run (Option ApiError)
  remove_group ng h = (ok (env.delete_group_reply h ng), upgrade_call (delete_group ng) ∷ h)

  -- r.Update(ctx, ku)
  unfoldable pub write_upgrade : KubernetesUpgrade → Run (Unit {0})
  write_upgrade ku h = (of_reply (env.upgrade_reply h ku), upgrade_call (update_upgrade ku) ∷ h)

  -- r.Status().Update(ctx, ku)
  unfoldable pub write_upgrade_status : KubernetesUpgrade → Run (Unit {0})
  write_upgrade_status ku h =
      (of_reply (env.upgrade_status_reply h ku), upgrade_call (update_upgrade_status ku) ∷ h)
