-- ===== src/Upgrade/Calls/Rules.antt =====
-- Rules for what the calls of the cluster upgrade controller satisfy, and for what they return.
use kubernetes_upgrade_opera.Base.{Option, none, some, String, ◌≡◌, refl}
use kubernetes_upgrade_opera.Core.{Lease}
use kubernetes_upgrade_opera.Types.{NodeGroupUpgrade, KubernetesUpgrade}
use kubernetes_upgrade_opera.Cluster.{
  Call, read_clock, list_nodes, ask_version, get_lease, create_lease, update_lease, delete_lease,
  get_group, list_groups, apply_group, release_group, delete_group, update_upgrade,
  update_upgrade_status, upgrade_call, History, found,
}
use kubernetes_upgrade_opera.Cluster.Rules.{Post, Ensures, Any, anything, answered}
use kubernetes_upgrade_opera.Upgrade.Calls.{
  UpgradeEnv, of_version, read_nodes, read_version, read_time, read_lease, write_new_lease,
  write_lease, remove_lease, read_group, read_groups, write_group, write_release, remove_group,
  write_upgrade, write_upgrade_status,
}

versioned :
    (env : UpgradeEnv) (h : History) (o : Option String)
    → env.git_version h ≡ o
    → Post (λ v. (h' : History) × (env.git_version h' ≡ some v)) (of_version o)
versioned env h none e = tt
versioned env h (some v) e = (h, e)

module _ {C : Call → Type 0} (env : UpgradeEnv) where
  pub Ensures-read_nodes :
      C (upgrade_call list_nodes)
      → Ensures C (read_nodes env) (λ nodes. (h : History) × (env.cluster_nodes h ≡ found nodes))
  unfolding read_nodes
  Ensures-read_nodes k = record { at = λ h all. ((k, all), answered env.cluster_nodes h) }

  pub Ensures-read_version :
      C (upgrade_call ask_version)
      → Ensures C (read_version env) (λ v. (h : History) × (env.git_version h ≡ some v))
  unfolding read_version
  Ensures-read_version k = record {
    at = λ h all. ((k, all), versioned env h (env.git_version h) refl);
  }

  pub Ensures-read_time :
      C read_clock → Ensures C (read_time env) (λ t. (h : History) × (env.clock h ≡ t))
  unfolding read_time
  Ensures-read_time k = record { at = λ h all. ((k, all), (h, refl)) }

  pub Ensures-read_lease :
      C (upgrade_call get_lease)
      → Ensures C (read_lease env) (λ a. (h : History) × (env.lease_at h ≡ a))
  unfolding read_lease
  Ensures-read_lease k = record { at = λ h all. ((k, all), (h, refl)) }

  pub Ensures-write_new_lease :
      (l : Lease)
      → C (upgrade_call (create_lease l))
      → Ensures C (write_new_lease env l) (λ r. (h : History) × (env.create_reply h l ≡ r))
  unfolding write_new_lease
  Ensures-write_new_lease l k = record { at = λ h all. ((k, all), (h, refl)) }

  pub Ensures-write_lease :
      (l : Lease)
      → C (upgrade_call (update_lease l))
      → Ensures C (write_lease env l) (λ r. (h : History) × (env.update_reply h l ≡ r))
  unfolding write_lease
  Ensures-write_lease l k = record { at = λ h all. ((k, all), (h, refl)) }

  pub Ensures-remove_lease : C (upgrade_call delete_lease) → Ensures C (remove_lease env) Any
  unfolding remove_lease
  Ensures-remove_lease k = record { at = λ h all. ((k, all), anything _) }

  pub Ensures-read_group :
      (namespace name : String)
      → C (upgrade_call (get_group namespace name))
      → Ensures C
          (read_group env namespace name)
          (λ a. (h : History) × (env.group_at h namespace name ≡ a))
  unfolding read_group
  Ensures-read_group namespace name k = record { at = λ h all. ((k, all), (h, refl)) }

  pub Ensures-read_groups :
      (namespace parent : String)
      → C (upgrade_call (list_groups namespace parent))
      → Ensures C
          (read_groups env namespace parent)
          (λ a. (h : History) × (env.groups_of h namespace parent ≡ found a))
  unfolding read_groups
  Ensures-read_groups namespace parent k = record {
    at = λ h all. ((k, all), answered (λ h. env.groups_of h namespace parent) h);
  }

  pub Ensures-write_group :
      (ng : NodeGroupUpgrade)
      → C (upgrade_call (apply_group ng))
      → Ensures C (write_group env ng) (λ a. (h : History) × (env.applied h ng ≡ found a))
  unfolding write_group
  Ensures-write_group ng k = record { at = λ h all. ((k, all), answered (λ h. env.applied h ng) h) }

  pub Ensures-write_release :
      (ng : NodeGroupUpgrade)
      → C (upgrade_call (release_group ng))
      → Ensures C (write_release env ng) (λ a. (h : History) × (env.released h ng ≡ found a))
  unfolding write_release
  Ensures-write_release ng k = record {
    at = λ h all. ((k, all), answered (λ h. env.released h ng) h);
  }

  pub Ensures-remove_group :
      (ng : NodeGroupUpgrade)
      → C (upgrade_call (delete_group ng))
      → Ensures C (remove_group env ng) Any
  unfolding remove_group
  Ensures-remove_group ng k = record { at = λ h all. ((k, all), tt) }

  pub Ensures-write_upgrade :
      (ku : KubernetesUpgrade)
      → C (upgrade_call (update_upgrade ku))
      → Ensures C (write_upgrade env ku) Any
  unfolding write_upgrade
  Ensures-write_upgrade ku k = record { at = λ h all. ((k, all), anything _) }

  pub Ensures-write_upgrade_status :
      (ku : KubernetesUpgrade)
      → C (upgrade_call (update_upgrade_status ku))
      → Ensures C (write_upgrade_status env ku) Any
  unfolding write_upgrade_status
  Ensures-write_upgrade_status ku k = record { at = λ h all. ((k, all), anything _) }
