-- ===== src/Kubeadm/Adapter/Gate.antt =====
-- What Precheck lets pass, and that the adapter writes no status.
use kubernetes_upgrade_opera.Base.{ℕ, ◌*◌, ◌<◌, length}
use kubernetes_upgrade_opera.Health.{count_ready}
use kubernetes_upgrade_opera.Health.Majority.{control_plane_health_iff}
use kubernetes_upgrade_opera.Kubeadm.Adapter.{unless_healthy, by_etcdctl}
use kubernetes_upgrade_opera.Base.{
  String, Bool, true, false, Option, none, some, List, [], ◌∷◌, ◌≡◌, refl, ◌⊎◌, inl, inr,
  if◌then◌else◌,
}
use kubernetes_upgrade_opera.Result.{Result, ok, err, no_rest_config}
use kubernetes_upgrade_opera.Core.{Node}
use kubernetes_upgrade_opera.Types.{
  Role, control_plane, worker, NodeGroupUpgrade, NodeGroupUpgradeSpec,
}
use kubernetes_upgrade_opera.Batches.{Scaled}
use kubernetes_upgrade_opera.Health.{check_etcd_quorum, control_plane_health, EtcdQuorumStatus}
use kubernetes_upgrade_opera.Health.Listing.{
  put_all, list_control_plane_nodes, check_control_plane_health, check_etcd_quorum_via_api_servers,
  get_running_etcd_version,
}
use kubernetes_upgrade_opera.Discovery.{control_plane_label_key, legacy_control_plane_label_key}
use kubernetes_upgrade_opera.NodeGroup.Invariant.{Writes}
use kubernetes_upgrade_opera.Adapter.Quiet.{Quiet}
use kubernetes_upgrade_opera.Cluster.{
  Call, ExecutorCall, executor_call, History, found, pure, raise, Run,
}
use kubernetes_upgrade_opera.Cluster.Rules.{
  Any, anything, Post, Ensures, Ensures-pure, Ensures-raise, Ensures-lift, Ensures-if, Ensures-bind,
  Ensures-in_context, Ensures-weaken, Any-calls,
}
use kubernetes_upgrade_opera.Kubeadm.Calls.{ExecutorEnv}
use kubernetes_upgrade_opera.Kubeadm.Calls.Rules.{
  Ensures-read_labelled, Ensures-read_etcd_pods, Ensures-read_healthz, Ensures-write_job,
}
use kubernetes_upgrade_opera.Kubeadm.EtcdQuorum.Laws.{AllEnded, Decided, decides}
use kubernetes_upgrade_opera.Kubeadm.Adapter.{
  PinnedChecksums, precheck_etcd, precheck, begin_node, begin_nodes, begin_batch, verify,
  kubeadm_adapter,
}
use kubernetes_upgrade_opera.Kubeadm.Adapter.Polls.{poll_nodes-PolledJob}
use kubernetes_upgrade_opera.Kubeadm.Adapter.Jobs.{raises}

-- The nodes as ListControlPlaneNodes lists them.
abbrev pub ListedNodes : ExecutorEnv → List Node → Type 0
ListedNodes env nodes =
    (current : List Node) × (legacy : List Node) × ((h : History) × (env.labelled h
          control_plane_label_key
        ≡ found current))
    × ((h : History) × (env.labelled h legacy_control_plane_label_key ≡ found legacy))
    × (nodes ≡ put_all legacy (put_all current []))

-- Both checks of etcd passed for the nodes.
abbrev pub Quorums : ExecutorEnv → List Node → Type 0
Quorums env nodes =
    ((h : History) × ((check_etcd_quorum (env.answers_ok h) nodes).healthy ≡ true))
    × ((k : ℕ) × AllEnded env nodes k × ((nodes ≡ []) ⊎ (length nodes < 2 * k)))

-- A Precheck that is ready has seen a majority of the control plane Ready and, for the control plane's
-- own group, both checks of etcd.
abbrev pub Passed : ExecutorEnv → NodeGroupUpgrade → Bool × String → Type 0
Passed env ng (false, reason) = Unit
Passed env ng (true, reason) =
    ((nodes : List Node) × ListedNodes env nodes
      × ((nodes ≡ []) ⊎ (length nodes < 2 * count_ready nodes)))
    × ((ng.spec.role ≡ worker) ⊎ ((nodes : List Node) × ListedNodes env nodes × Quorums env nodes))

module _ {C : Call → Type 0} where
  guarded :
      {Q : Bool × String → Type 0} (healthy : Bool) (reason : String) (next : Run (Bool × String))
      → Q (false, reason)
      → (healthy ≡ true → Ensures C next Q)
      → Ensures C (unless_healthy healthy reason next) Q
  guarded true reason next q k = k refl
  guarded false reason next q k = Ensures-pure _ q

  module _ (env : ExecutorEnv) (jobs : (c : ExecutorCall) → C (executor_call c)) where
    list_nodes-Listed : Ensures C (list_control_plane_nodes env) (ListedNodes env)
    unfolding list_control_plane_nodes
    list_nodes-Listed =
        Ensures-bind _ _ (Ensures-in_context _ _ (Ensures-read_labelled env _ (jobs _)))
          (λ current a.
            Ensures-bind _ _ (Ensures-in_context _ _ (Ensures-read_labelled env _ (jobs _)))
              (λ legacy b. Ensures-pure _ (current, legacy, a, b, refl)))

    health-Listed : Ensures C (check_control_plane_health env) (λ health.
        (nodes : List Node) × ListedNodes env nodes × (control_plane_health nodes ≡ health))
    unfolding check_control_plane_health
    health-Listed = Ensures-bind _ _ list_nodes-Listed (λ nodes l. Ensures-pure _ (nodes, l, refl))

    served-Quorum :
        (nodes : List Node)
        → Ensures C
            (check_etcd_quorum_via_api_servers env nodes)
            (λ status. (h : History) × (check_etcd_quorum (env.answers_ok h) nodes ≡ status))
    unfolding check_etcd_quorum_via_api_servers
    served-Quorum nodes =
        Ensures-bind _ _ (Ensures-in_context _ _ (Ensures-lift _ (anything _))) (λ _ _.
          Ensures-bind _ _ (Ensures-read_healthz env _ (jobs _))
            (λ f (h, e). Ensures-pure _ (h, rw e refl)))

    version-Any : Ensures C (get_running_etcd_version env) Any
    unfolding get_running_etcd_version
    version-Any =
        Ensures-bind _ _ (Ensures-in_context _ _ (Ensures-read_etcd_pods env (jobs _)))
          (λ pods _. Ensures-lift _ (anything _))

    by_etcdctl-Quorum :
        (nodes : List Node) (o : Option EtcdQuorumStatus)
        → Decided env nodes o
        → Ensures C (by_etcdctl env o) (λ (passes : Bool × String).
          (passes.0 ≡ false)
          ⊎ ((k : ℕ) × AllEnded env nodes k × ((nodes ≡ []) ⊎ (length nodes < 2 * k))))
    by_etcdctl-Quorum nodes none d = Ensures-pure _ (inl refl)
    by_etcdctl-Quorum nodes (some status) (k, all, iff) =
        guarded status.healthy _ _ (inl refl) (λ e. Ensures-pure _ (inr (k, all, iff.0 e)))

    precheck_etcd-Quorums : Ensures C (precheck_etcd env) (λ (passes : Bool × String).
        (passes.0 ≡ false) ⊎ ((nodes : List Node) × ListedNodes env nodes × Quorums env nodes))
    unfolding precheck_etcd
    precheck_etcd-Quorums = Ensures-bind _ _ list_nodes-Listed (λ nodes listed.
        Ensures-bind _ _ (served-Quorum nodes) (λ served (h, s).
          guarded served.healthy _ _ (inl refl) (λ e.
            Ensures-bind _ _ (Ensures-in_context _ _ version-Any) (λ version _.
              Ensures-bind _ _ (decides env jobs nodes version) (λ checked d.
                Ensures-weaken _
                  (λ passes w. elim w [
                    | inl f ↦ inl f
                    | inr q ↦ inr (nodes, listed, ((h, rw s e), q))
                  ])
                  (by_etcdctl-Quorum nodes checked d))))))

    of_role :
        (ng : NodeGroupUpgrade) (role : Role)
        → ng.spec.role ≡ role
        → (health : (nodes : List Node) × ListedNodes env nodes
            × ((nodes ≡ []) ⊎ (length nodes < 2 * count_ready nodes)))
        → Ensures C
            (if elim role [ control_plane ↦ true | worker ↦ false ]
              then if env.has_rest_config then precheck_etcd env else raise no_rest_config
              else pure (true, ""))
            (Passed env ng)
    of_role ng worker e health = Ensures-pure _ (health, inl e)
    of_role ng control_plane e health =
        Ensures-if env.has_rest_config _ _
          (Ensures-weaken _ (λ passes w. passed passes w) precheck_etcd-Quorums) (Ensures-raise _)
      where
        passed :
            (passes : Bool × String)
            → (passes.0 ≡ false) ⊎ ((nodes : List Node) × ListedNodes env nodes × Quorums env nodes)
            → Passed env ng passes
        passed (false, reason) w = tt
        passed (true, reason) (inl f) = absurd cc
        passed (true, reason) (inr q) = (health, inr q)

    pub precheck-within : (ng : NodeGroupUpgrade) → Ensures C (precheck env ng) (Passed env ng)
    unfolding precheck
    precheck-within ng = Ensures-bind _ _ health-Listed (λ health (nodes, listed, e).
        guarded health.healthy _ _ tt (λ healthy.
          of_role ng ng.spec.role refl
            (nodes, listed, (control_plane_health_iff nodes).0 (rw e healthy))))

    verify-within : Ensures C (verify env) Any
    unfolding verify
    verify-within = Ensures-bind _ _ health-Listed (λ health _. Ensures-pure _ tt)

    begin_node-within :
        (target : String) (node : Node) (use_apply : Bool) (r : Result PinnedChecksums)
        → Ensures C (begin_node env target node use_apply r) Any
    unfolding begin_node
    begin_node-within target node use_apply (err e) = Ensures-pure _ tt
    begin_node-within target node use_apply (ok sums) =
        Ensures-bind _ _ (Ensures-write_job env _ (jobs _)) (λ reply _. Ensures-pure _ tt)

    begin_nodes-within :
        (target : String) (available : Bool) (batch : List Node)
        → Ensures C (begin_nodes env target available batch) Any
    unfolding begin_nodes
    begin_nodes-within target available [] = Ensures-pure _ tt
    begin_nodes-within target available (node ∷ batch) =
        Ensures-bind _ _ (begin_node-within target node available _) (λ failure _.
          Ensures-bind _ _ (begin_nodes-within target false batch) (λ rest _. Ensures-pure _ tt))

    begin_batch-within :
        (ng : NodeGroupUpgrade) (batch : List Node) → Ensures C (begin_batch env ng batch) Any
    unfolding begin_batch
    begin_batch-within ng batch = Ensures-bind _ _ (begin_nodes-within _ _ batch) (λ e _. raises e)

-- Whatever the cluster answers: Precheck says ready only where the control plane shows no node or more
-- than half of its nodes are Ready, and, for a group of the control plane, where besides a healthy
-- check over the API servers the etcdctl check has seen the Job of every control-plane node at its
-- end, with more than half of them Complete if there are any.
pub precheck-Passed :
    (env : ExecutorEnv) (ng : NodeGroupUpgrade) (h : History)
    → Post (Passed env ng) (precheck env ng h).0
precheck-Passed env ng h = ((precheck-within {C = Any} env (λ c. tt) ng).at h (Any-calls h)).1

-- The kubeadm adapter keeps a group's invariant in all that it writes, since it writes no status of
-- its own.
pub kubeadm_adapter-Quiet :
    (env : ExecutorEnv) (scaled : Scaled) (spec : NodeGroupUpgradeSpec)
    → Quiet (Writes scaled spec) (kubeadm_adapter env)
unfolding kubeadm_adapter
kubeadm_adapter-Quiet env scaled spec = record {
  precheck = λ ng. Ensures-weaken _ (λ p _. tt) (precheck-within env (λ c. tt) ng);
  begin_batch = λ ng batch. begin_batch-within env (λ c. tt) ng batch;
  poll_batch =
      λ ng batch. Ensures-weaken _ (λ p _. tt) (poll_nodes-PolledJob env (λ c. tt) _ batch);
  verify = λ ng. verify-within env (λ c. tt);
}
