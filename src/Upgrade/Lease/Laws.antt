-- ===== src/Upgrade/Lease/Laws.antt =====
-- What acquireLease and releaseLease write, and on what grounds.
use kubernetes_upgrade_opera.Base.{
  String, Bool, true, false, not, ◌&&◌, Option, none, some, ◌≡◌, refl, ◌⊎◌, inl, inr, if◌then◌else◌,
}
use kubernetes_upgrade_opera.Result.{
  ApiError, not_found, already_exists, conflict, too_many_requests, other, Result, ok, err,
}
use kubernetes_upgrade_opera.Core.{Time, Lease}
use kubernetes_upgrade_opera.Cluster.{
  Call, read_clock, get_lease, create_lease, update_lease, delete_lease, upgrade_call, History,
  Answer, found, refused, pure,
}
use kubernetes_upgrade_opera.Cluster.Rules.{
  Any, Post, Ensures, Ensures-pure, Ensures-raise, Ensures-lift, Ensures-bind,
}
use kubernetes_upgrade_opera.Upgrade.Calls.{UpgradeEnv, remove_lease}
use kubernetes_upgrade_opera.Upgrade.Calls.Rules.{
  Ensures-read_time, Ensures-read_lease, Ensures-write_new_lease, Ensures-write_lease,
  Ensures-remove_lease,
}
use kubernetes_upgrade_opera.Upgrade.Lease.{
  is_held, is_held_by, is_stale, lease_of, Claim, create, update, stop, claim, after_create,
  after_update, act_on, acquire_lease, release_read, release_lease,
}

-- A lease that an upgrade may take: unheld, its own, or not renewed within the lease's duration.
abbrev pub Free : String → Time → Lease → Type 0
Free id now lease =
    (is_held lease ≡ false) ⊎ (is_held_by lease id ≡ true) ⊎ (is_stale lease now ≡ true)

-- The lease is free at the time that is written.
pub record Taken (env : UpgradeEnv) (id : String) (written : Lease) : Type 0 where
  pub now : Time
  pub shown : (h : History) × (env.clock h ≡ now)
  pub lease : Lease
  pub read : (h : History) × (env.lease_at h ≡ found lease)
  pub free : Free id now lease
  pub ours : written ≡ lease_of id now

-- No lease is there, and it is created for this upgrade.
pub record Created (env : UpgradeEnv) (id : String) (written : Lease) : Type 0 where
  pub now : Time
  pub shown : (h : History) × (env.clock h ≡ now)
  pub missing : (h : History) × (env.lease_at h ≡ refused not_found)
  pub ours : written ≡ lease_of id now

-- The grounds of a call on the lease.
abbrev pub OnLease : UpgradeEnv → String → Call → Type 0
OnLease env id read_clock = Unit
OnLease env id (upgrade_call get_lease) = Unit
OnLease env id (upgrade_call (create_lease l)) = Created env id l
OnLease env id (upgrade_call (update_lease l)) = Taken env id l
OnLease env id (upgrade_call delete_lease) =
    (l : Lease) × ((h : History) × (env.lease_at h ≡ found l)) × (is_held_by l id ≡ true)
OnLease env id _ = ⊥

-- What is granted was written.
abbrev pub Granted : UpgradeEnv → String → Bool → Type 0
Granted env id false = Unit
Granted env id true =
    (now : Time) × (h : History) × ((env.create_reply h (lease_of id now) ≡ none)
      ⊎ (env.update_reply h (lease_of id now) ≡ none))

-- The guard of acquireLease.
pub Free-guard :
    (id : String) (now : Time) (lease : Lease) (held ours stale : Bool)
    → is_held lease ≡ held
    → is_held_by lease id ≡ ours
    → is_stale lease now ≡ stale
    → (held && (not (held && ours) && not stale)) ≡ false
    → Free id now lease
Free-guard id now lease false ours stale e f g h = inl e
Free-guard id now lease true true stale e f g h = inr (inl f)
Free-guard id now lease true false true e f g h = inr (inr g)
Free-guard id now lease true false false e f g h = absurd cc

-- A claim on the lease that was read has its grounds.
abbrev pub Grounded : UpgradeEnv → String → Claim → Type 0
Grounded env id (create l) = Created env id l
Grounded env id (update l) = Taken env id l
Grounded env id (stop (ok true)) = ⊥
Grounded env id (stop r) = Unit

by_guard-Grounded :
    (env : UpgradeEnv) (id : String) (l : Lease) (b : Bool)
    → (b ≡ false → Taken env id l)
    → Grounded env id (if b then stop (ok false) else update l)
by_guard-Grounded env id l true f = tt
by_guard-Grounded env id l false f = f refl

claim-Grounded :
    (env : UpgradeEnv) (id : String) (now : Time) (a : Answer Lease)
    → (h : History) × (env.clock h ≡ now)
    → (h : History) × (env.lease_at h ≡ a)
    → Grounded env id (claim id now a)
unfolding claim
claim-Grounded env id now (refused not_found) shown read = record {
  now = now;
  shown = shown;
  missing = read;
  ours = refl;
}
claim-Grounded env id now (refused already_exists) shown read = tt
claim-Grounded env id now (refused conflict) shown read = tt
claim-Grounded env id now (refused too_many_requests) shown read = tt
claim-Grounded env id now (refused other) shown read = tt
claim-Grounded env id now (found lease) shown read = by_guard-Grounded env id _ _ (λ e. record {
  now = now;
  shown = shown;
  lease = lease;
  read = read;
  free =
      Free-guard id now lease (is_held lease) (is_held_by lease id) (is_stale lease now) refl refl
        refl e;
  ours = refl;
})

created-Granted :
    (env : UpgradeEnv) (id : String) (now : Time) (l : Lease) (reply : Option ApiError)
    → l ≡ lease_of id now
    → (h : History) × (env.create_reply h l ≡ reply)
    → Post (Granted env id) (after_create reply)
unfolding after_create
created-Granted env id now l none e (h, r) = (now, h, inl (rw e at r))
created-Granted env id now l (some not_found) e r = tt
created-Granted env id now l (some already_exists) e r = tt
created-Granted env id now l (some conflict) e r = tt
created-Granted env id now l (some too_many_requests) e r = tt
created-Granted env id now l (some other) e r = tt

updated-Granted :
    (env : UpgradeEnv) (id : String) (now : Time) (l : Lease) (reply : Option ApiError)
    → l ≡ lease_of id now
    → (h : History) × (env.update_reply h l ≡ reply)
    → Post (Granted env id) (after_update reply)
unfolding after_update
updated-Granted env id now l none e (h, r) = (now, h, inr (rw e at r))
updated-Granted env id now l (some not_found) e r = tt
updated-Granted env id now l (some already_exists) e r = tt
updated-Granted env id now l (some conflict) e r = tt
updated-Granted env id now l (some too_many_requests) e r = tt
updated-Granted env id now l (some other) e r = tt

stopped-Granted :
    (env : UpgradeEnv) (id : String) (r : Result Bool)
    → Grounded env id (stop r)
    → Post (Granted env id) r
stopped-Granted env id (ok true) g = absurd g
stopped-Granted env id (ok false) g = tt
stopped-Granted env id (err e) g = tt

-- Calls that contain those on the lease.
module _ {C : Call → Type 0} (env : UpgradeEnv) (id : String)
    (within : (c : Call) → OnLease env id c → C c) where
  act_on-OnLease : (c : Claim) → Grounded env id c → Ensures C (act_on env c) (Granted env id)
  unfolding act_on
  act_on-OnLease (create l) g =
      Ensures-bind _ _ (Ensures-write_new_lease env l (within (upgrade_call (create_lease l)) g))
        (λ reply r. Ensures-lift _ (created-Granted env id g.now l reply g.ours r))
  act_on-OnLease (update l) g =
      Ensures-bind _ _ (Ensures-write_lease env l (within (upgrade_call (update_lease l)) g))
        (λ reply r. Ensures-lift _ (updated-Granted env id g.now l reply g.ours r))
  act_on-OnLease (stop r) g = Ensures-lift r (stopped-Granted env id r g)

  pub acquire_lease-within : Ensures C (acquire_lease env id) (Granted env id)
  unfolding acquire_lease
  acquire_lease-within =
      Ensures-bind _ _ (Ensures-read_time env (within read_clock tt)) (λ now shown.
        Ensures-bind _ _ (Ensures-read_lease env (within (upgrade_call get_lease) tt))
          (λ a read. act_on-OnLease (claim id now a) (claim-Grounded env id now a shown read)))

  removes :
      (l : Lease) (b : Bool)
      → is_held_by l id ≡ b
      → (h : History) × (env.lease_at h ≡ found l)
      → Ensures C (if not b then pure tt else remove_lease env) Any
  removes l true e read = Ensures-remove_lease env (within (upgrade_call delete_lease) (l, read, e))
  removes l false e read = Ensures-pure tt tt

  release_read-within :
      (a : Answer Lease)
      → (h : History) × (env.lease_at h ≡ a)
      → Ensures C (release_read env id a) Any
  unfolding release_read
  release_read-within (refused not_found) read = Ensures-pure tt tt
  release_read-within (refused already_exists) read = Ensures-raise _
  release_read-within (refused conflict) read = Ensures-raise _
  release_read-within (refused too_many_requests) read = Ensures-raise _
  release_read-within (refused other) read = Ensures-raise _
  release_read-within (found l) read = removes l (is_held_by l id) refl read

  pub release_lease-within : Ensures C (release_lease env id) Any
  unfolding release_lease
  release_lease-within =
      Ensures-bind _ _ (Ensures-read_lease env (within (upgrade_call get_lease) tt))
        release_read-within

-- An acquisition takes the lease only where none is there, or where the one that it read is unheld,
-- its own or stale; what it writes names this upgrade and the time that it read; and it is granted
-- only where that write succeeds.
pub acquire_lease-Granted :
    (env : UpgradeEnv) (id : String)
    → Ensures (OnLease env id) (acquire_lease env id) (Granted env id)
acquire_lease-Granted env id = acquire_lease-within env id (λ c k. k)
