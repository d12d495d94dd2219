-- ===== src/Upgrade/Stored.antt =====
-- The statuses that a cluster upgrade can come to have, by reconciles against any cluster and by
-- edits of all but the status.
use mathlib.Core.List.{Memᴰ}
use kubernetes_upgrade_opera.Base.{◌^◌, ◌≤◌, [], length, ◌≡◌, refl, inl, inr}
use kubernetes_upgrade_opera.Types.{UpgradePhase, KubernetesUpgrade}
use kubernetes_upgrade_opera.Version.{Semver}
use kubernetes_upgrade_opera.Cluster.{update_upgrade_status, upgrade_call}
use kubernetes_upgrade_opera.Upgrade.Calls.{UpgradeEnv}
use kubernetes_upgrade_opera.Upgrade.Course.{course}
use kubernetes_upgrade_opera.Upgrade.Course.InRange.{InRange, Step-InRange}
use kubernetes_upgrade_opera.Upgrade.Lawful.{guards_of}
use kubernetes_upgrade_opera.Upgrade.Promises.{calls_of, reconcile_upgrade-Step}

-- A stored upgrade: created without a phase and a plan, edited, or written by any reconcile of a
-- stored one. A stored plan has no more steps than an int32 can count.
pub data StoredUpgrade (S : Semver) : KubernetesUpgrade → Type 0 where
  created :
      (ku : KubernetesUpgrade)
      → ku.status.phase ≡ UpgradePhase.unset
      → ku.status.step_plan ≡ []
      → StoredUpgrade S ku
  edited :
      (ku ku' : KubernetesUpgrade)
      → StoredUpgrade S ku
      → ku'.status ≡ ku.status
      → StoredUpgrade S ku'
  reconciled :
      (env : UpgradeEnv) (ku ku' : KubernetesUpgrade)
      → StoredUpgrade S ku
      → Memᴰ (upgrade_call (update_upgrade_status ku')) (calls_of S env ku)
      → length ku'.status.step_plan ≤ 2 ^ 31
      → StoredUpgrade S ku'

-- In every status that an upgrade can come to have, from an empty one, by reconciles against any
-- cluster and by edits of all but the status: the current step index is in the range of the step
-- plan, or there is no plan and the phase is none from Prechecks to Postchecks.
pub StoredUpgrade-InRange :
    (S : Semver) (ku : KubernetesUpgrade) → StoredUpgrade S ku → InRange (course ku.status)
StoredUpgrade-InRange S ku (created _ e p) = inl (p, rw e refl)
StoredUpgrade-InRange S ku (edited before _ s e) = rw e (StoredUpgrade-InRange S before s)
StoredUpgrade-InRange S ku (reconciled env before _ s m k) =
    let earlier = StoredUpgrade-InRange S before s in
    elim (reconcile_upgrade-Step S env before ku m).1 [
      | inl marked ↦ rw marked earlier
      | inr step ↦ Step-InRange S before.spec (guards_of S env before) _ _ step k earlier
    ]
