-- ===== src/Upgrade/Lease.antt =====
-- acquireLease and releaseLease of kubernetesupgrade_prechecks.go: the mutual exclusion of upgrades.
pub mod Laws
pub mod Exclusion
use kubernetes_upgrade_opera.Base.{
  ℤ, pos, ◌-ℤ◌, ltb_ℤ, String, str_eq, Bool, true, false, not, ◌&&◌, ◌||◌, Option, none, some,
  if◌then◌else◌,
}
use kubernetes_upgrade_opera.Result.{
  ApiError, not_found, already_exists, conflict, too_many_requests, other, api, Result, ok, err,
}
use kubernetes_upgrade_opera.Core.{Time, Lease}
use kubernetes_upgrade_opera.Cluster.{Answer, found, refused, Run, pure, raise, lift, ◌>>=◌}
use kubernetes_upgrade_opera.Upgrade.Calls.{
  UpgradeEnv, read_time, read_lease, write_new_lease, write_lease, remove_lease,
}

-- five minutes in nanoseconds
abbrev pub lease_duration : ℤ
lease_duration = pos 300000000000

-- `x != nil && *x != ""`, and `x != nil && *x == holderID`
unfoldable pub is_held : Lease → Bool
is_held lease = elim lease.holder_identity [ none ↦ false | some h ↦ not (str_eq h "") ]

unfoldable pub is_held_by : Lease → String → Bool
is_held_by lease id = elim lease.holder_identity [ none ↦ false | some h ↦ str_eq h id ]

-- The duration of Go saturates, which does not change how it compares to five minutes.
unfoldable pub is_stale : Lease → Time → Bool
is_stale lease now = elim lease.renew_time [
  | none ↦ true
  | some t ↦ ltb_ℤ lease_duration (now -ℤ t)
]

-- the lease as an upgrade writes it
abbrev pub lease_of : String → Time → Lease
lease_of id now = record { holder_identity = some id; renew_time = some now }

-- What acquireLease does about the lease that it reads.
pub data Claim : Type 0 where
  create update : Lease → Claim
  stop : Result Bool → Claim

unfoldable pub claim : String → Time → Answer Lease → Claim
unfolding is_held is_held_by is_stale
claim id now (refused not_found) = create (lease_of id now)
claim id now (refused e) = stop (err (api e))
claim id now (found lease) =
    let is_us = is_held lease && is_held_by lease id in
    if is_held lease && (not is_us && not (is_stale lease now))
    then stop (ok false)
    else update (lease_of id now)

unfoldable pub after_create : Option ApiError → Result Bool
after_create none = ok true
after_create (some already_exists) = ok false
after_create (some e) = err (api e)

unfoldable pub after_update : Option ApiError → Result Bool
after_update none = ok true
after_update (some conflict) = ok false
after_update (some e) = err (api e)

module _ (env : UpgradeEnv) where
  unfoldable pub act_on : Claim → Run Bool
  unfolding after_create after_update
  act_on (create lease) = do reply ← write_new_lease env lease; lift (after_create reply)
  act_on (update lease) = do reply ← write_lease env lease; lift (after_update reply)
  act_on (stop r) = lift r

  unfoldable pub acquire_lease : String → Run Bool
  unfolding act_on claim
  acquire_lease id = do now ← read_time env; lease ← read_lease env; act_on (claim id now lease)

  unfoldable pub release_read : String → Answer Lease → Run (Unit {0})
  unfolding is_held_by
  release_read id (refused not_found) = pure tt
  release_read id (refused e) = raise (api e)
  release_read id (found lease) = if not (is_held_by lease id) then pure tt else remove_lease env

  unfoldable pub release_lease : String → Run (Unit {0})
  unfolding release_read
  release_lease id = do lease ← read_lease env; release_read id lease
