-- ===== src/Drain.antt =====
-- pkg/k8sutil/drain.go: one pass of evicting a node's pods.
--
-- The reasons kept beside a pod's state are texts for the log, and are left out.
pub mod Laws
pub mod Emptied
use kubernetes_upgrade_opera.Base.{
  ℕ, suc, ℤ, String, Bool, true, false, not, ◌&&◌, ◌||◌, Option, none, some, List, [], ◌∷◌, ◌++◌,
  if◌then◌else◌, str_eq,
}
use kubernetes_upgrade_opera.Result.{
  ApiError, not_found, already_exists, conflict, too_many_requests, other, Error, api, joined,
  wrapped, Result, ok, err,
}
use kubernetes_upgrade_opera.Core.{
  Pod, PodPhase, pending, running, succeeded, failed, unknown, OwnerReference, Volume, lookup,
}
use kubernetes_upgrade_opera.Cluster.{
  Env, Run, pure, lift, in_context, read_pods, create_eviction, ◌>>=◌, ◌>>◌,
}

pub record DrainOptions : Type 0 where
  pub grace_period_seconds : Option ℤ
  pub ignore_daemon_sets : Bool
  pub delete_empty_dir_data : Bool

-- PodDrainState
pub data DrainState : Type 0 where
  evicting blocked skipped : DrainState

pub record PodStatus : Type 0 where
  pub namespace : String
  pub name : String
  pub state : DrainState

abbrev counts : DrainState → Bool
counts skipped = false
counts blocked = true
counts evicting = true

abbrev is_blocked : DrainState → Bool
is_blocked blocked = true
is_blocked skipped = false
is_blocked evicting = false

-- (DrainResult).Remaining
unfoldable pub remaining : List PodStatus → ℕ
remaining [] = 0
remaining (p ∷ ps) = let rest = remaining ps in if counts p.state then suc rest else rest

-- (DrainResult).Blocked
unfoldable pub blocked_pods : List PodStatus → List PodStatus
blocked_pods [] = []
blocked_pods (p ∷ ps) = let rest = blocked_pods ps in if is_blocked p.state then p ∷ rest else rest

abbrev pub status_of : Pod → DrainState → PodStatus
status_of pod state = record { namespace = pod.namespace; name = pod.name; state = state }

unfoldable pub is_mirror_pod : Pod → Bool
is_mirror_pod pod = elim (lookup pod.annotations "kubernetes.io/config.mirror") [
  | none ↦ false
  | some _ ↦ true
]

owned_by_daemon_set : List OwnerReference → Bool
owned_by_daemon_set [] = false
owned_by_daemon_set (r ∷ rs) = if str_eq r.kind "DaemonSet" then true else owned_by_daemon_set rs

unfoldable pub is_daemon_set_pod : Pod → Bool
unfolding owned_by_daemon_set
is_daemon_set_pod pod = owned_by_daemon_set pod.owners

has_empty_dir : List Volume → Bool
has_empty_dir [] = false
has_empty_dir (v ∷ vs) = if v.empty_dir then true else has_empty_dir vs

unfoldable pub uses_empty_dir : Pod → Bool
unfolding has_empty_dir
uses_empty_dir pod = has_empty_dir pod.volumes

abbrev has_terminated : PodPhase → Bool
has_terminated succeeded = true
has_terminated failed = true
has_terminated pending = false
has_terminated running = false
has_terminated unknown = false

-- The guards of DrainNode's loop before the eviction, in order: the state of a pod that is settled
-- without one.
unfoldable pub settled : DrainOptions → Pod → Option DrainState
unfolding is_mirror_pod is_daemon_set_pod uses_empty_dir
settled opts pod =
    if has_terminated pod.phase
    then some skipped
    else if is_mirror_pod pod
    then some skipped
    else if opts.ignore_daemon_sets && is_daemon_set_pod pod
    then some skipped
    else if not opts.delete_empty_dir_data && uses_empty_dir pod
    then some blocked
    else elim pod.deletion_timestamp [ none ↦ none | some _ ↦ some evicting ]

-- What the answer to the eviction adds to the result, and the error that it adds to `errs`.
unfoldable pub after_eviction : Pod → Option ApiError → List PodStatus × Option Error
after_eviction pod none = (status_of pod evicting ∷ [], none)
after_eviction pod (some too_many_requests) = (status_of pod blocked ∷ [], none)
after_eviction pod (some not_found) = ([], none)
after_eviction pod (some already_exists) =
    (status_of pod blocked ∷ [], some (wrapped "evicting pod" (api already_exists)))
after_eviction pod (some conflict) =
    (status_of pod blocked ∷ [], some (wrapped "evicting pod" (api conflict)))
after_eviction pod (some other) =
    (status_of pod blocked ∷ [], some (wrapped "evicting pod" (api other)))

-- errors.Join, one error before those that follow
abbrev pub join : Option Error → Option Error → Option Error
join none e = e
join (some d) none = some d
join (some d) (some e) = some (joined d e)

abbrev pub both :
    List PodStatus × Option Error → List PodStatus × Option Error → List PodStatus × Option Error
both (ps, d) (qs, e) = (ps ++ qs, join d e)

-- `return result, errors.Join(errs...)`: the caller drops the result where there is an error
abbrev finish : List PodStatus × Option Error → Result (List PodStatus)
finish (ps, none) = ok ps
finish (ps, some e) = err e

module _ (env : Env) (opts : DrainOptions) where
  drain_pod : Pod → Option DrainState → Run (List PodStatus × Option Error)
  unfolding after_eviction
  drain_pod pod (some state) = pure (status_of pod state ∷ [], none)
  drain_pod pod none = do reply ← create_eviction env pod; pure (after_eviction pod reply)

  unfoldable pub drain_pods : List Pod → Run (List PodStatus × Option Error)
  unfolding drain_pod settled
  drain_pods [] = pure ([], none)
  drain_pods (pod ∷ pods) = do
    one ← drain_pod pod (settled opts pod)
    rest ← drain_pods pods
    pure (both one rest)

  unfoldable pub drain_node : String → Run (List PodStatus)
  unfolding drain_pods
  drain_node name = do
    pods ← in_context "listing pods" (read_pods env name)
    result ← drain_pods pods
    lift (finish result)
