-- ===== src/Kubeadm/Adapter/Jobs.antt =====
-- The Jobs that beginning a batch creates.
use kubernetes_upgrade_opera.Kubeadm.EtcdQuorum.{or_unpinned}
use kubernetes_upgrade_opera.Kubeadm.Adapter.{sums_of, no_sums}
use mathlib.Core.List.{Memᴰ}
use mathlib.Core.List.Memᴰ.{head, tail}
use kubernetes_upgrade_opera.Base.{
  String, Bool, true, false, Option, none, some, List, [], ◌∷◌, ◌≡◌, refl,
}
use kubernetes_upgrade_opera.Result.{Error, Result, ok, err}
use kubernetes_upgrade_opera.Core.{Node}
use kubernetes_upgrade_opera.Types.{NodeGroupUpgrade}
use kubernetes_upgrade_opera.Checksums.{KubeSet, lookup_kube}
use kubernetes_upgrade_opera.Checksums.Laws.{Pinned, lookup_kube_iff}
use kubernetes_upgrade_opera.Cluster.{Call, create_job, executor_call}
use kubernetes_upgrade_opera.Cluster.Rules.{
  Any, Post, Ensures, Ensures-pure, Ensures-raise, Ensures-bind,
}
use kubernetes_upgrade_opera.Kubeadm.Calls.{ExecutorEnv}
use kubernetes_upgrade_opera.Kubeadm.Calls.Rules.{Ensures-write_job}
use kubernetes_upgrade_opera.Kubeadm.Executor.{build_upgrade_job}
use kubernetes_upgrade_opera.Kubeadm.Adapter.{
  pinned_sums_for, PinnedChecksums, begin_node, begin_nodes, begin_batch, raise_joined,
}

-- A Job for a node of the batch, with the checksums that the table has for it.
abbrev pub PinnedJob : ExecutorEnv → String → List Node → Call → Type 0
PinnedJob env target batch (executor_call (create_job job)) =
    (node : Node) × (use_apply : Bool) × (set : KubeSet) × Memᴰ node batch
    × Pinned env.checksums target node.architecture set
    × (job
        ≡ build_upgrade_job env node.name target use_apply
            (record { kubeadm = set.kubeadm; kubelet_deb = set.kubelet_deb }))
PinnedJob env target batch _ = ⊥

-- What is resolved without the switch is a pinned entry.
sums_for-Pinned :
    (env : ExecutorEnv) (target : String) (node : Node) (allow : Bool)
    → allow ≡ false
    → (r : Result KubeSet) → lookup_kube env.checksums target node.architecture ≡ r
    → Post
        (λ sums.
          (set : KubeSet) × Pinned env.checksums target node.architecture set
          × (sums ≡ record { kubeadm = set.kubeadm; kubelet_deb = set.kubelet_deb }))
        (or_unpinned allow no_sums (sums_of r))
sums_for-Pinned env target node allow strict (ok set) e =
    (set, (lookup_kube_iff env.checksums target node.architecture set).0 e, refl)
sums_for-Pinned env target node true strict (err failure) e = absurd cc
sums_for-Pinned env target node false strict (err failure) e = tt

module _ (env : ExecutorEnv) (target : String)
    (strict : env.settings.allow_unpinned_checksums ≡ false) where
  begin_node-Pinned :
      (all : List Node) (node : Node) (use_apply : Bool) (r : Result PinnedChecksums)
      → Memᴰ node all
      → Post
          (λ sums.
            (set : KubeSet) × Pinned env.checksums target node.architecture set
            × (sums ≡ record { kubeadm = set.kubeadm; kubelet_deb = set.kubelet_deb }))
          r
      → Ensures (PinnedJob env target all) (begin_node env target node use_apply r) Any
  unfolding begin_node
  begin_node-Pinned all node use_apply (err e) m p = Ensures-pure _ tt
  begin_node-Pinned all node use_apply (ok sums) m (set, pinned, e) =
      Ensures-bind _ _ (Ensures-write_job env _ (node, use_apply, set, m, pinned, rw e refl))
        (λ reply _. Ensures-pure _ tt)

  begin_nodes-Pinned :
      (all batch : List Node) (available : Bool)
      → ((node : Node) → Memᴰ node batch → Memᴰ node all)
      → Ensures (PinnedJob env target all) (begin_nodes env target available batch) Any
  unfolding begin_nodes pinned_sums_for
  begin_nodes-Pinned all [] available within = Ensures-pure _ tt
  begin_nodes-Pinned all (node ∷ batch) available within =
      Ensures-bind _ _
        (begin_node-Pinned all node available _ (within node (head refl))
          (sums_for-Pinned env target node _ strict _ refl))
        (λ failure _.
          Ensures-bind _ _ (begin_nodes-Pinned all batch false (λ n m. within n (tail m)))
            (λ rest _. Ensures-pure _ tt))

pub raises : {C : Call → Type 0} (e : Option Error) → Ensures C (raise_joined e) Any
raises none = Ensures-pure _ tt
raises (some e) = Ensures-raise e

-- Where unpinned checksums are not allowed, beginning a batch makes no call but to create Jobs, each
-- for a node of the batch and the group's target version, with the checksums of an entry of the table
-- for that version and the node's architecture, none of them empty.
pub begin_batch-PinnedJob :
    (env : ExecutorEnv) (ng : NodeGroupUpgrade) (batch : List Node)
    → env.settings.allow_unpinned_checksums ≡ false
    → Ensures (PinnedJob env ng.spec.target_version batch) (begin_batch env ng batch) Any
unfolding begin_batch
begin_batch-PinnedJob env ng batch strict =
    Ensures-bind _ _
      (begin_nodes-Pinned env ng.spec.target_version strict batch batch _ (λ node m. m))
      (λ errs _. raises errs)
