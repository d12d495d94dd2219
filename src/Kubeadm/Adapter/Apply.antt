-- ===== src/Kubeadm/Adapter/Apply.antt =====
-- At most one node of a batch is told to run "kubeadm upgrade apply".
use kubernetes_upgrade_opera.Base.{
  ℕ, suc, ◌+◌, ◌≤◌, String, str_eq, Bool, true, false, ◌&&◌, Option, none, some, List, [], ◌∷◌, ◌≡◌,
  refl, arith, if◌then◌else◌,
}
use kubernetes_upgrade_opera.Result.{Error, Result, ok, err}
use kubernetes_upgrade_opera.Core.{Node, Container, label_or_empty, lookup}
use kubernetes_upgrade_opera.Types.{NodeGroupUpgrade}
use kubernetes_upgrade_opera.Cluster.{
  create_job, executor_call, History, Run, pure, raise, continue, ◌>>=◌,
}
use kubernetes_upgrade_opera.Kubeadm.Calls.{ExecutorEnv, write_job}
use kubernetes_upgrade_opera.Kubeadm.Executor.{PinnedChecksums, build_upgrade_job, upgrade_mode}
use kubernetes_upgrade_opera.Kubeadm.Adapter.{
  is_control_plane, is_first_control_plane_upgrade, begin_node, begin_nodes, begin_batch,
  raise_joined,
}

-- A Job whose container runs in the mode "apply".
any_applies : List Container → Bool
unfolding label_or_empty
any_applies [] = false
any_applies (c ∷ containers) =
    if str_eq (label_or_empty c.variables "UPGRADE_MODE") "apply"
    then true
    else any_applies containers

-- The number of Jobs in that mode that were to be created.
unfoldable pub applies : History → ℕ
unfolding any_applies
applies [] = 0
applies (executor_call (create_job job) ∷ h) =
    if any_applies job.containers then suc (applies h) else applies h
applies (_ ∷ h) = applies h

abbrev pub one_if : Bool → ℕ
one_if true = 1
one_if false = 0

-- A handler that adds at most `n` of them.
record Adds {A : Type 0} (n : ℕ) (m : Run A) : Type 0 where
  pub at : (h : History) → applies (m h).1 ≤ applies h + n

module _ {A B : Type 0} where
  next-Adds :
      (n : ℕ) (r : Result A) (f : A → Run B) (h : History)
      → ((a : A) → Adds n (f a))
      → applies (continue r f h).1 ≤ applies h + n
  next-Adds n (ok a) f h k = (k a).at h
  next-Adds n (err e) f h k = omega arith

  Adds-bind :
      (i j k : ℕ) (m : Run A) (f : A → Run B)
      → i + j ≤ k
      → Adds i m
      → ((a : A) → Adds j (f a))
      → Adds k (m >>= f)
  unfolding ◌>>=◌
  Adds-bind i j k m f le km kf = record {
    at = λ h. let first = km.at h in let rest = next-Adds j (m h).0 f (m h).1 kf in omega arith;
  }

Adds-pure : {A : Type 0} (a : A) → Adds 0 (pure a)
unfolding pure
Adds-pure a = record { at = λ h. omega arith }

raise_joined-Adds : (e : Option Error) → Adds 0 (raise_joined e)
unfolding pure raise
raise_joined-Adds none = record { at = λ h. omega arith }
raise_joined-Adds (some e) = record { at = λ h. omega arith }

module _ (env : ExecutorEnv) where
  any_applies-build :
      (node_name target : String) (use_apply : Bool) (sums : PinnedChecksums)
      → any_applies (build_upgrade_job env node_name target use_apply sums).containers ≡ use_apply
  unfolding any_applies build_upgrade_job label_or_empty lookup upgrade_mode
  any_applies-build node_name target true sums = refl
  any_applies-build node_name target false sums = refl

  applies-create :
      (node_name target : String) (use_apply : Bool) (sums : PinnedChecksums) (h : History)
      → applies
          (executor_call (create_job (build_upgrade_job env node_name target use_apply sums)) ∷ h)
        ≤ applies h + one_if use_apply
  unfolding applies
  applies-create node_name target true sums h =
      rw (any_applies-build node_name target true sums) (omega arith)
  applies-create node_name target false sums h =
      rw (any_applies-build node_name target false sums) (omega arith)

  write_job-Adds :
      (node_name target : String) (use_apply : Bool) (sums : PinnedChecksums)
      → Adds
          (one_if use_apply)
          (write_job env (build_upgrade_job env node_name target use_apply sums))
  unfolding write_job
  write_job-Adds node_name target use_apply sums = record {
    at = λ h. applies-create node_name target use_apply sums h;
  }

  begin_node-Adds :
      (target : String) (node : Node) (use_apply : Bool) (r : Result PinnedChecksums)
      → Adds (one_if use_apply) (begin_node env target node use_apply r)
  unfolding begin_node pure
  begin_node-Adds target node use_apply (err e) = record { at = λ h. omega arith }
  begin_node-Adds target node use_apply (ok sums) =
      Adds-bind (one_if use_apply) 0 _ _ _ (omega arith)
        (write_job-Adds node.name target use_apply sums) (λ reply. Adds-pure _)

  begin_nodes-Adds :
      (target : String) (available : Bool) (batch : List Node)
      → Adds (one_if available) (begin_nodes env target available batch)
  unfolding begin_nodes pure
  begin_nodes-Adds target available [] = record { at = λ h. omega arith }
  begin_nodes-Adds target available (node ∷ batch) =
      Adds-bind (one_if available) 0 _ _ _ (omega arith) (begin_node-Adds target node available _)
        (λ failure.
          Adds-bind 0 0 _ _ _ (omega arith) (begin_nodes-Adds target false batch)
            (λ rest. Adds-pure _))

  begin_batch-Adds :
      (ng : NodeGroupUpgrade) (batch : List Node)
      → Adds
          (one_if (
            is_control_plane ng
            && is_first_control_plane_upgrade ng.status.node_progress ng.spec.target_version))
          (begin_batch env ng batch)
  unfolding begin_batch
  begin_batch-Adds ng batch =
      Adds-bind _ 0 _ _ _ (omega arith) (begin_nodes-Adds _ _ batch) raise_joined-Adds

-- Beginning a batch creates at most one Job that runs "kubeadm upgrade apply", and none where the
-- group is not the control plane's or one of its nodes is completed for the target version.
pub begin_batch-applies :
    (env : ExecutorEnv) (ng : NodeGroupUpgrade) (batch : List Node) (h : History)
    → applies (begin_batch env ng batch h).1
      ≤ applies h
        + one_if (
            is_control_plane ng
            && is_first_control_plane_upgrade ng.status.node_progress ng.spec.target_version)
begin_batch-applies env ng batch h = (begin_batch-Adds env ng batch).at h
