-- ===== src/Kubeadm/EtcdQuorum/Laws.antt =====
-- The etcdctl check against a strict majority of Jobs that have come to their end.
use kubernetes_upgrade_opera.Base.{
  ℕ, zero, suc, ◌+◌, ◌*◌, ◌<◌, String, true, Option, none, some, List, [], ◌∷◌, length, ◌≡◌, refl,
  ◌⊎◌, inl, inr, ◌↔◌, arith,
}
use kubernetes_upgrade_opera.Result.{not_found, already_exists, conflict, too_many_requests, other}
use kubernetes_upgrade_opera.Core.{JobCondition, Node}
use kubernetes_upgrade_opera.Health.{EtcdQuorumStatus}
use kubernetes_upgrade_opera.Health.Majority.{majority_iff}
use kubernetes_upgrade_opera.Cluster.{
  Call, ExecutorCall, executor_call, History, Answer, found, refused,
}
use kubernetes_upgrade_opera.Cluster.Rules.{
  Any, anything, Post, Ensures, Ensures-pure, Ensures-raise, Ensures-lift, Ensures-bind,
  Ensures-weaken, Any-calls,
}
use kubernetes_upgrade_opera.Kubeadm.Calls.{ExecutorEnv}
use kubernetes_upgrade_opera.Kubeadm.Calls.Rules.{
  Ensures-read_job, Ensures-write_job, Ensures-remove_job,
}
use kubernetes_upgrade_opera.Kubeadm.EtcdQuorum.{
  JobState, running, complete, failed, job_condition_state, Counted, etcdctl_check_job_name,
  observed, check_member, check_members, verdict, check_etcd_quorum_via_etcdctl,
}

-- The Job of a node was seen in the state.
abbrev pub Seen : ExecutorEnv → Node → JobState → Type 0
Seen env node state =
    (h : History) × (conditions : List JobCondition) × (env.job_at h
        (etcdctl_check_job_name env node.name)
      ≡ found conditions)
    × (job_condition_state conditions ≡ state)

-- The Job of every node was seen at its end, of so many as Complete.
pub data AllEnded (env : ExecutorEnv) : List Node → ℕ → Type 0 where
  no_more : AllEnded env [] 0
  and_complete :
      {n : ℕ} {nodes : List Node} (node : Node)
      → Seen env node complete
      → AllEnded env nodes n
      → AllEnded env (node ∷ nodes) (suc n)
  and_failed :
      {n : ℕ} {nodes : List Node} (node : Node)
      → Seen env node failed
      → AllEnded env nodes n
      → AllEnded env (node ∷ nodes) n

-- What a part of the loop adds to its counts: nothing is pending and all have ended, or more is
-- pending.
abbrev Adds : ExecutorEnv → List Node → Counted → Counted → Type 0
Adds env nodes before after =
    ((k : ℕ) × AllEnded env nodes k
      × (after.pending ≡ before.pending)
      × (after.healthy ≡ k + before.healthy))
    ⊎ (before.pending < after.pending)

-- What one node adds.
data AddsOne (env : ExecutorEnv) (node : Node) (before : Counted) : Counted → Type 0 where
  one_complete :
      Seen env node complete
      → AddsOne env node before (record before { healthy = suc before.healthy })
  one_failed : Seen env node failed → AddsOne env node before before
  one_waits : AddsOne env node before (record before { pending = suc before.pending })

Adds-first :
    (env : ExecutorEnv) (node : Node) (nodes : List Node) (before next after : Counted)
    → AddsOne env node before next
    → Adds env nodes next after
    → Adds env (node ∷ nodes) before after
Adds-first env node nodes before next after (one_complete seen) (inl (k, all, p, q)) =
    inl (suc k, and_complete node seen all, p, omega arith)
Adds-first env node nodes before next after (one_failed seen) (inl (k, all, p, q)) =
    inl (k, and_failed node seen all, p, q)
Adds-first env node nodes before next after one_waits (inl (k, all, p, q)) = inr (omega arith)
Adds-first env node nodes before next after (one_complete seen) (inr lt) = inr lt
Adds-first env node nodes before next after (one_failed seen) (inr lt) = inr lt
Adds-first env node nodes before next after one_waits (inr lt) = inr (omega arith)

-- Calls that contain those of the check.
module _ {C : Call → Type 0} (env : ExecutorEnv)
    (jobs : (c : ExecutorCall) → C (executor_call c)) where
  observed-AddsOne :
      (node : Node) (n : Counted) (state : JobState)
      → Seen env node state
      → Ensures C (observed env (etcdctl_check_job_name env node.name) state n) (AddsOne env node n)
  observed-AddsOne node n complete seen =
      Ensures-bind _ _ (Ensures-remove_job env _ (jobs _))
        (λ reply _. Ensures-pure _ (one_complete seen))
  observed-AddsOne node n failed seen =
      Ensures-bind _ _ (Ensures-remove_job env _ (jobs _))
        (λ reply _. Ensures-pure _ (one_failed seen))
  observed-AddsOne node n running seen = Ensures-pure _ one_waits

  check_member-AddsOne :
      (version : String) (node : Node) (n : Counted) (a : Answer (List JobCondition))
      → (h : History) × (env.job_at h (etcdctl_check_job_name env node.name) ≡ a)
      → Ensures C (check_member env version node n a) (AddsOne env node n)
  unfolding check_member
  check_member-AddsOne version node n (refused not_found) read =
      Ensures-bind _ _ (Ensures-lift _ (anything _)) (λ sha _.
        Ensures-bind _ _ (Ensures-write_job env _ (jobs _)) (λ reply _.
          Ensures-bind _ _ (Ensures-lift _ (anything _)) (λ _ _. Ensures-pure _ one_waits)))
  check_member-AddsOne version node n (refused already_exists) read = Ensures-raise _
  check_member-AddsOne version node n (refused conflict) read = Ensures-raise _
  check_member-AddsOne version node n (refused too_many_requests) read = Ensures-raise _
  check_member-AddsOne version node n (refused other) read = Ensures-raise _
  check_member-AddsOne version node n (found conditions) (h, e) =
      observed-AddsOne node n (job_condition_state conditions) (h, conditions, e, refl)

  check_members-Adds :
      (version : String) (nodes : List Node) (n : Counted)
      → Ensures C (check_members env version nodes n) (Adds env nodes n)
  unfolding check_members
  check_members-Adds version [] n = Ensures-pure _ (inl (0, no_more, refl, omega arith))
  check_members-Adds version (node ∷ nodes) n =
      Ensures-bind _ _ (Ensures-read_job env _ (jobs _)) (λ a read.
        Ensures-bind _ _ (check_member-AddsOne version node n a read) (λ next one.
          Ensures-weaken _ (λ after rest. Adds-first env node nodes n next after one rest)
            (check_members-Adds version nodes next)))

-- A check that is done: every Job was seen at its end, and it is healthy exactly if there is no node
-- or more than half of the Jobs were Complete.
abbrev pub Decided : ExecutorEnv → List Node → Option EtcdQuorumStatus → Type 0
Decided env nodes none = Unit
Decided env nodes (some status) =
    (k : ℕ) × AllEnded env nodes k
    × ((status.healthy ≡ true) ↔ ((nodes ≡ []) ⊎ (length nodes < 2 * k)))

verdict-Decided :
    (env : ExecutorEnv) (node : Node) (nodes : List Node) (healthy pending : ℕ)
    → Adds env
        (node ∷ nodes)
        (record { healthy = 0; pending = 0 })
        (record { healthy = healthy; pending = pending })
    → Decided env
        (node ∷ nodes)
        (verdict env (length (node ∷ nodes)) (record { healthy = healthy; pending = pending }))
unfolding verdict
verdict-Decided env node nodes healthy zero (inl (k, all, p, q)) =
    let both = majority_iff (length (node ∷ nodes)) healthy in
    let same : healthy ≡ k = omega arith in
    (
      k,
      all,
      (
        λ h. inr (rw same at (both.0 h)),
        λ h. elim h [ inl e ↦ absurd (cc e) | inr m ↦ both.1 (rw same m) ],
      ),
    )
verdict-Decided env node nodes healthy zero (inr lt) = absurd (omega arith)
verdict-Decided env node nodes healthy (suc pending) added = tt

pub decides :
    {C : Call → Type 0} (env : ExecutorEnv)
    → ((c : ExecutorCall) → C (executor_call c))
    → (nodes : List Node) (version : String)
    → Ensures C (check_etcd_quorum_via_etcdctl env nodes version) (Decided env nodes)
unfolding check_etcd_quorum_via_etcdctl
decides env jobs [] version = Ensures-pure _ (0, no_more, (λ h. inl refl, λ h. refl))
decides env jobs (node ∷ nodes) version =
    Ensures-bind _ _ (check_members-Adds env jobs version (node ∷ nodes) _)
      (λ n added. Ensures-pure _ (verdict-Decided env node nodes n.healthy n.pending added))

-- Whatever the cluster answers: where the etcdctl check returns a status, it has seen the Job of every
-- control-plane node at its end in this pass, and the status is healthy exactly if there is no such
-- node, or the Jobs of more than half of them were Complete.
pub check_etcd_quorum_via_etcdctl-Decided :
    (env : ExecutorEnv) (nodes : List Node) (version : String) (h : History)
    → Post (Decided env nodes) (check_etcd_quorum_via_etcdctl env nodes version h).0
check_etcd_quorum_via_etcdctl-Decided env nodes version h =
    ((decides {C = Any} env (λ c. tt) nodes version).at h (Any-calls h)).1
